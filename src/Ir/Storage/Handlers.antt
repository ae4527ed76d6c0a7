-- ===== src/Ir/Storage/Handlers.antt =====
-- auditzoo/core/agents/ir_storage_agent.py: the handlers of `IRStorageAgent`.
use audit_zoo_bug_byters.Base.{Bool, true, false, Option, none, some, Text, codes}
use audit_zoo_bug_byters.Ir.Model.{CodeUnit}
use audit_zoo_bug_byters.Ir.Graph.{MultiDiGraph}
use audit_zoo_bug_byters.Ir.Backend.{Backend, Action, pure, reads, ◌>>=◌}
use audit_zoo_bug_byters.Ir.View.{World, ask, or_key_error}
use audit_zoo_bug_byters.Ir.View.Units.{
  get_unit, has_unit, fetch_unit, get_all_units_by_kind, get_all_units,
}
use audit_zoo_bug_byters.Ir.View.Relations.{
  get_all_relations_by_kind, get_related_units, get_all_relations,
}
use audit_zoo_bug_byters.Ir.View.FactStore.{load_facts}
use audit_zoo_bug_byters.Ir.View.Cache.{
  Preload, preload_from_backend, sync_backend, reload, cleanup,
}
use audit_zoo_bug_byters.Ir.View.Stats.{get_graph_stats}
use audit_zoo_bug_byters.Ir.Storage.{
  KindValue, unit_kind, relation_kind, no_kind, Payload, Answer, nothing, raw, unit_answer, flag,
  units, rows, related, stats, unit_not_found, wrong_kind, not_implemented, Response, response_ok,
  response_fail,
}

-- `payload.get(key, default)`
unfoldable pub get_or : {A : Type 0} → Option A → A → A
get_or none default = default
get_or (some a) default = a

-- `payload[key]`
abbrev pub at_key : {W A : Type 0} → Option A → Action W A
at_key o = reads (λ _. or_key_error o)

-- `Response.ok(unit)`, or the failure where there is none
unfoldable pub unit_response : Option CodeUnit → Response
unfolding response_ok response_fail
unit_response none = response_fail unit_not_found
unit_response (some unit) = response_ok (unit_answer unit)

module _ {G S : Type 0} (nx : MultiDiGraph G) (backend : Backend S) (preload : Preload) where
  -- A handler.
  abbrev pub Handler : Type 0
  Handler = Payload → Action (World G S) Response

  -- `return Response.ok(answer)`, once the call has returned.
  unfoldable pub done :
      {A : Type 0} → (A → Answer) → Action (World G S) A → Action (World G S) Response
  unfolding response_ok
  done answer call = do a ← call; pure (response_ok (answer a))

  unfoldable pub handle_query : Handler
  unfolding get_or done or_key_error
  handle_query p = do
    query ← at_key p.query
    done raw (ask (backend.query query (get_or p.response_ty (codes "json"))))

  unfoldable pub handle_fetch_unit : Handler
  unfolding fetch_unit unit_response or_key_error
  handle_fetch_unit p = do
    file_path ← at_key p.file_path
    line_start ← at_key p.line_start
    line_end ← at_key p.line_end
    unit ← fetch_unit nx backend (record {
      file_path = file_path;
      line_start = line_start;
      line_end = line_end;
      column_start = p.column_start;
    })
    pure (unit_response unit)

  unfoldable pub handle_get_unit : Handler
  unfolding get_unit unit_response get_or or_key_error
  handle_get_unit p = do
    unit_id ← at_key p.unit_id
    unit ← get_unit nx backend unit_id (get_or p.fetch_backend true)
    pure (unit_response unit)

  unfoldable pub handle_has_unit : Handler
  unfolding has_unit done get_or or_key_error
  handle_has_unit p = do
    unit_id ← at_key p.unit_id
    done flag (has_unit nx backend unit_id (get_or p.fetch_backend true))

  -- By the kind that the payload holds.
  unfoldable pub list_kind : KindValue → Bool → Action (World G S) Response
  unfolding get_all_units_by_kind done response_fail
  list_kind (unit_kind kind) fetch_backend =
      done units (get_all_units_by_kind nx backend kind fetch_backend)
  list_kind (relation_kind kind) fetch_backend = pure (response_fail wrong_kind)
  list_kind no_kind fetch_backend = pure (response_fail wrong_kind)

  unfoldable pub handle_get_all_units_by_kind : Handler
  unfolding list_kind get_or or_key_error
  handle_get_all_units_by_kind p = do
    kind ← at_key p.kind
    list_kind kind (get_or p.fetch_backend true)

  unfoldable pub handle_get_all_units : Handler
  unfolding get_all_units done
  handle_get_all_units p = done units (reads (λ w. get_all_units nx backend w.0))

  unfoldable pub list_relations : KindValue → Bool → Action (World G S) Response
  unfolding get_all_relations_by_kind done response_fail
  list_relations (relation_kind kind) fetch_backend =
      done rows (get_all_relations_by_kind nx backend kind fetch_backend)
  list_relations (unit_kind kind) fetch_backend = pure (response_fail wrong_kind)
  list_relations no_kind fetch_backend = pure (response_fail wrong_kind)

  unfoldable pub handle_get_all_relations_by_kind : Handler
  unfolding list_relations get_or or_key_error
  handle_get_all_relations_by_kind p = do
    kind ← at_key p.kind
    list_relations kind (get_or p.fetch_backend true)

  unfoldable pub relate : CodeUnit → KindValue → Text → Bool → Action (World G S) Response
  unfolding get_related_units done response_fail
  relate unit (relation_kind kind) direction fetch_backend =
      done related (get_related_units nx backend unit kind direction fetch_backend)
  relate unit (unit_kind kind) direction fetch_backend = pure (response_fail wrong_kind)
  relate unit no_kind direction fetch_backend = pure (response_fail wrong_kind)

  unfoldable pub relate_found :
      Option CodeUnit → KindValue → Text → Bool → Action (World G S) Response
  unfolding relate response_fail
  relate_found none kind direction fetch_backend = pure (response_fail unit_not_found)
  relate_found (some unit) kind direction fetch_backend = relate unit kind direction fetch_backend

  unfoldable pub handle_get_related_units : Handler
  unfolding get_unit relate_found get_or or_key_error
  handle_get_related_units p = do
    unit_id ← at_key p.unit_id
    kind ← at_key p.kind
    direction ← at_key p.direction
    unit ← get_unit nx backend unit_id (get_or p.fetch_backend true)
    relate_found unit kind direction (get_or p.fetch_backend true)

  unfoldable pub handle_get_all_relations : Handler
  unfolding get_all_relations done
  handle_get_all_relations p = done rows (reads (λ w. get_all_relations nx backend w.0))

  -- The seven handlers that only say that they are not implemented yet.
  unfoldable pub handle_unimplemented : Handler
  unfolding response_fail
  handle_unimplemented p = pure (response_fail not_implemented)

  abbrev pub no_data : {A : Type 0} → A → Answer
  no_data a = nothing

  unfoldable pub handle_load_facts : Handler
  unfolding load_facts done
  handle_load_facts p = done no_data (load_facts nx backend)

  unfoldable pub handle_preload_from_backend : Handler
  unfolding preload_from_backend done
  handle_preload_from_backend p = done no_data (preload_from_backend nx backend preload)

  unfoldable pub handle_sync_backend : Handler
  unfolding sync_backend done
  handle_sync_backend p = done no_data (sync_backend nx backend)

  unfoldable pub handle_get_graph_stats : Handler
  unfolding get_graph_stats done
  handle_get_graph_stats p = done stats (reads (λ w. get_graph_stats nx w.0))

  unfoldable pub handle_reload : Handler
  unfolding reload done
  handle_reload p = done no_data (reload nx backend preload)

  unfoldable pub handle_cleanup : Handler
  unfolding cleanup done get_or
  handle_cleanup p = done no_data (cleanup nx backend (get_or p.sync_to_backend false))
