-- ===== src/Schemas.antt =====
-- auditzoo/agents/cwe78_study/schemas.py: the enumerations and records that the study passes round.
-- An enumeration stands for its members; `value` functions give the strings that they equal.
-- The float `confidence` of a triage result is left out: no decision of the program reads it.
use audit_zoo_bug_byters.Base.{ℕ, Option, none, some, List, ℤ, Text, codes, text_eq, if◌then◌else◌}

pub data ToolArm : Type 0 where
  semgrep joern : ToolArm

pub data Verdict : Type 0 where
  true_positive false_positive uncertain : Verdict

pub data RefinementAction : Type 0 where
  keep refine add_rule : RefinementAction

pub data HelperRole : Type 0 where
  source_wrapper sink_wrapper transformer sanitizer unrelated : HelperRole

-- `Verdict(s)`, where `none` is the `ValueError` of a string that is no verdict
unfoldable pub verdict_of : Text → Option Verdict
verdict_of s =
    if text_eq s (codes "true_positive")
    then some Verdict.true_positive
    else if text_eq s (codes "false_positive")
    then some Verdict.false_positive
    else if text_eq s (codes "uncertain")
    then some Verdict.uncertain
    else none

-- `RefinementAction(s)`
unfoldable pub action_of : Text → Option RefinementAction
action_of s =
    if text_eq s (codes "keep")
    then some RefinementAction.keep
    else if text_eq s (codes "refine")
    then some RefinementAction.refine
    else if text_eq s (codes "add_rule")
    then some RefinementAction.add_rule
    else none

-- `HelperRole(s)`
unfoldable pub role_of : Text → Option HelperRole
role_of s =
    if text_eq s (codes "source-wrapper")
    then some HelperRole.source_wrapper
    else if text_eq s (codes "sink-wrapper")
    then some HelperRole.sink_wrapper
    else if text_eq s (codes "transformer")
    then some HelperRole.transformer
    else if text_eq s (codes "sanitizer")
    then some HelperRole.sanitizer
    else if text_eq s (codes "unrelated")
    then some HelperRole.unrelated
    else none

-- A JSON value that stands for a line, a whole number or a text: its `str`, "" for a missing key and
-- for null, and what `int` makes of it, `none` where that raises. A missing key is parsed as the
-- default that the reader gives.
pub record JsonLine : Type 0 where
  pub shown : Text
  pub parsed : Option ℤ

-- One object of a Joern query's answer, under the keys that the program reads.
pub record JoernRecord : Type 0 where
  pub sink_file : Text
  pub sink_line : JsonLine
  pub sink_name : Text
  pub sink_code : Text
  pub source_file : Text
  pub source_line : JsonLine
  pub source_code : Text
  pub recovery_kind : Option Text

-- The dict `Finding.metadata`, under the keys that the program reads. `none` is a missing key, and
-- so is an empty list or text, which every reader treats like a missing key.
pub record Metadata : Type 0 where
  pub raw : Option JoernRecord
  pub recovery_kind : Option Text
  pub recovery_kinds_seen : List Text
  pub dedup_count : Option ℕ
  pub dedup_sources : List Text
  pub structural_evidence : Text

pub record Finding : Type 0 where
  pub file_path : Text
  pub line_start : ℤ
  pub line_end : ℤ
  pub rule_id : Text
  pub message : Text
  pub code_snippet : Text
  pub surrounding_context : Text
  pub sink_api : Text
  pub arm : Option ToolArm
  pub metadata : Metadata

pub record TriageResult : Type 0 where
  pub verdict : Verdict
  pub reasoning : Text
  pub suggestion : Text
  pub source_expr : Text
  pub sink_expr : Text
  pub downgrade_reason : Text

-- `classifications` is a dict in insertion order, and so is `evidence`.
pub record JoernHelperClassification : Type 0 where
  pub classifications : List (Text × HelperRole)
  pub evidence : List (Text × Text)
