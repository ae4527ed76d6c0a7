-- ===== src/Ir/Storage.antt =====
-- auditzoo/core/agents/ir_storage_agent.py: the requests on a view, and auditzoo/core/protocol: their
-- responses. The payload is a dict: a key is an optional field. The check of a payload against its JSON
-- schema is a parameter, since it is another package's; it raises where the payload does not fit.
pub mod Handlers
pub mod Dispatch
pub mod Laws
pub mod Requests
use audit_zoo_bug_byters.Base.{
  Bool, true, false, Option, none, some, List, [], Text, ℤ, if◌then◌else◌,
}
use audit_zoo_bug_byters.Ir.Model.{CodeUnit}
use audit_zoo_bug_byters.Ir.Backend.{Exn, other, Result, ok, raised}
use audit_zoo_bug_byters.Ir.View.Stats.{GraphStats}
use audit_zoo_bug_byters.Ir.View.Relations.{RelatedUnit, RelationRow}

-- A value that is passed for a kind.
pub data KindValue : Type 0 where
  unit_kind : Text → KindValue
  relation_kind : Text → KindValue
  no_kind : KindValue

-- The keys that the handlers read.
pub record Payload : Type 0 where
  pub query : Option Text
  pub response_ty : Option Text
  pub file_path : Option Text
  pub line_start : Option ℤ
  pub line_end : Option ℤ
  pub column_start : Option ℤ
  pub unit_id : Option Text
  pub kind : Option KindValue
  pub direction : Option Text
  pub fetch_backend : Option Bool
  pub sync_to_backend : Option Bool

pub record Request : Type 0 where
  pub request_type : Text
  pub payload : Payload

-- What a response carries.
pub data Answer : Type 0 where
  nothing : Answer
  raw : Text → Answer
  unit_answer : CodeUnit → Answer
  flag : Bool → Answer
  units : List CodeUnit → Answer
  rows : List RelationRow → Answer
  related : List RelatedUnit → Answer
  stats : GraphStats → Answer

-- The errors, in place of their texts.
pub data Failure : Type 0 where
  invalid_request : Failure
  unknown_request : Failure
  operation_failed : Exn → Failure
  unit_not_found : Failure
  wrong_kind : Failure
  not_implemented : Failure

pub record Response : Type 0 where
  pub success : Bool
  pub answer : Option Answer
  pub error : Option Failure

unfoldable pub response_ok : Answer → Response
response_ok a = record { success = true; answer = some a; error = none }

unfoldable pub response_fail : Failure → Response
response_fail f = record { success = false; answer = none; error = some f }

-- `Response.unwrap`: the data, which may be missing, or the exception.
unfoldable pub unwrap : Response → Result (Option Answer)
unwrap r = if r.success then ok r.answer else raised (other [])

unfoldable pub unwrap_or : Option Answer → Response → Option Answer
unwrap_or default r = if r.success then r.answer else default
