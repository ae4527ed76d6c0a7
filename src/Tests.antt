-- ===== src/Tests.antt =====
-- Runs at concrete inputs: each applies a theorem to data that exercise the code.
mod Catalogs
mod Audits
mod Pipelines
mod SeedFilters
mod Views
mod Storages
mod FactDicts
mod SecondRuns
use audit_zoo_bug_byters.Base.{
  ℕ, suc, zero, ◌+◌, ◌≤◌, ◌≡◌, refl, ◌⊎◌, ◌||◌, inl, inr, Bool, true, false, Option, none, some,
  List, [], ◌∷◌, ◌++◌, ℤ, pos, negsuc, Text, codes, length, strip, All, get_elem?, map, arith,
  text_eq, starts_with, ends_with, occurs_in, is_space, drop_while, strip_by, lower, lower_char,
  before, join_nonempty, contains, path_matches, path_name, name_loop, mem_ℤ,
}
use audit_zoo_bug_byters.Base.Strings.Laws.{Occurs}
use audit_zoo_bug_byters.Base.Strings.Joined.{has_feed, in_some_part}
use audit_zoo_bug_byters.Schemas.{
  ToolArm, joern, Verdict, true_positive, false_positive, uncertain, verdict_of, JsonLine,
  JoernRecord, Metadata, Finding, TriageResult,
}
use audit_zoo_bug_byters.Triage.{
  Reply, raised, answered, snippet_text, substring_ok, brake, conclude, evidence_at, triage,
  triage_from, triage_batch,
}
use audit_zoo_bug_byters.Triage.Laws.{triage-quotes_source, get_elem?-triage_batch}
use audit_zoo_bug_byters.Score.{Tally, label_findings, Scores, count_missed}
use audit_zoo_bug_byters.Score.Table.{decide_labels, IsCounted, labels-label_findings}
use audit_zoo_bug_byters.Score.Lines.{NodupLines}
use audit_zoo_bug_byters.Score.Missed.{count_uncredited, fn-label_findings, lines-le-tp_fn}
use audit_zoo_bug_byters.Score.Committed.{label_findings-committed, committed}
use audit_zoo_bug_byters.Score.Lockstep.{IsGiven, no_hallucinated-triage_batch}

abbrev no_metadata : Metadata
no_metadata = record {
  raw = none;
  recovery_kind = none;
  recovery_kinds_seen = [];
  dedup_count = none;
  dedup_sources = [];
  structural_evidence = codes "from argv";
}

-- A call of the shell on line 10.
abbrev shell_call : Finding
shell_call = record {
  file_path = codes "pkg/run.py";
  line_start = pos 10;
  line_end = pos 10;
  rule_id = codes "r";
  message = [];
  code_snippet = codes "system(cmd)";
  surrounding_context = [];
  sink_api = codes "system";
  arm = some joern;
  metadata = no_metadata;
}

abbrev far_call : Finding
far_call = record shell_call { line_start = pos 90 }

-- A model that quotes `cmd` as the source of every finding.
abbrev pub ask_cmd : Finding → Text → Reply
ask_cmd f evidence = answered (codes "True_Positive") [] [] (codes " cmd ") (codes "system")

abbrev pub two_calls : List Finding
two_calls = shell_call ∷ far_call ∷ []

abbrev one_evidence : List (ℕ × Text)
one_evidence = (1, codes "from argv") ∷ []

abbrev pub run_py : Text
run_py = codes "run.py"

abbrev pub two_lines : List ℤ
two_lines = pos 12 ∷ pos 40 ∷ []

ask_cmd-commits : (triage ask_cmd shell_call []).verdict ≡ true_positive
unfolding triage conclude brake substring_ok snippet_text verdict_of lower lower_char text_eq strip
    strip_by drop_while is_space occurs_in starts_with join_nonempty
ask_cmd-commits = refl

triage-quotes_source_example :
    let quote = strip (triage ask_cmd shell_call []).source_expr in
    (2 ≤ length quote)
    × Occurs quote (snippet_text shell_call [])
    × ((has_feed quote
          || in_some_part quote
              (shell_call.surrounding_context ∷ shell_call.code_snippet ∷ [] ∷ []))
        ≡ true)
triage-quotes_source_example = triage-quotes_source ask_cmd shell_call [] ask_cmd-commits

two_calls-IsGiven : IsGiven ask_cmd 0 two_calls one_evidence
unfolding evidence_at
two_calls-IsGiven = (inr refl, (inl refl, tt))

no_hallucinated-triage_batch_example :
    (label_findings run_py two_lines 5 two_calls
      (triage_batch ask_cmd two_calls one_evidence)).tally.fp_by_hallucinated_source
    ≡ 0
no_hallucinated-triage_batch_example =
    no_hallucinated-triage_batch ask_cmd run_py two_lines 5 two_calls one_evidence two_calls-IsGiven

abbrev two_verdicts : List TriageResult
two_verdicts = triage_batch ask_cmd two_calls []

labels-label_findings_example :
    ((label_findings run_py two_lines 5 two_calls two_verdicts).tally.labels
      ≡ decide_labels run_py two_lines 5 two_calls two_verdicts)
    × IsCounted (label_findings run_py two_lines 5 two_calls two_verdicts).tally
labels-label_findings_example = labels-label_findings run_py two_lines 5 two_calls two_verdicts

fn-label_findings_example :
    (label_findings run_py two_lines 5 two_calls two_verdicts).fn
    ≡ count_uncredited run_py two_lines 5 two_calls two_verdicts two_lines
fn-label_findings_example = fn-label_findings run_py two_lines 5 two_calls two_verdicts

lines-le-tp_fn_example :
    ((label_findings run_py two_lines 5 two_calls two_verdicts).fn ≤ 2)
    × (2
        ≤ (label_findings run_py two_lines 5 two_calls two_verdicts).tally.tp
          + (label_findings run_py two_lines 5 two_calls two_verdicts).fn)
unfolding mem_ℤ
lines-le-tp_fn_example = lines-le-tp_fn run_py two_lines 5 two_calls two_verdicts (refl, (refl, tt))

label_findings-committed_example :
    let scored = label_findings run_py two_lines 5 in
    let (gs, us) = committed two_calls two_verdicts in
    ((scored two_calls two_verdicts).tally.tp ≡ (scored gs us).tally.tp)
    × ((scored two_calls two_verdicts).tally.fp ≡ (scored gs us).tally.fp)
    × ((scored two_calls two_verdicts).tally.fp_by_hallucinated_source
        ≡ (scored gs us).tally.fp_by_hallucinated_source)
    × ((scored two_calls two_verdicts).fn ≡ (scored gs us).fn)
label_findings-committed_example =
    label_findings-committed run_py two_lines 5 two_calls two_verdicts
