-- ===== src/Tests/Pipelines.antt =====
-- Runs of the pipeline.
use audit_zoo_bug_byters.Base.{
  ◌==◌, ◌+◌, ◌≡◌, refl, true, false, Option, none, some, List, [], ◌∷◌, Text, codes, length, All,
  text_eq, starts_with, is_space, drop_while, strip_by, strip, before, after_last, lower_char,
}
use audit_zoo_bug_byters.Schemas.{source_wrapper, sink_wrapper, JoernHelperClassification}
use audit_zoo_bug_byters.Triage.{triage_batch}
use audit_zoo_bug_byters.Score.{label_findings}
use audit_zoo_bug_byters.Catalog.{is_ident, is_ident_start}
use audit_zoo_bug_byters.Joern.{JoernArm}
use audit_zoo_bug_byters.Joern.Records.{parse_taint_results}
use audit_zoo_bug_byters.Joern.Tables.{total_count, count_dicts}
use audit_zoo_bug_byters.Pipeline.Words.{is_boundary, word_here, find_word}
use audit_zoo_bug_byters.Pipeline.Evidence.{
  truncate_field, is_self_flow_source, pick_alt, choose_source, build_structural_evidence_map,
}
use audit_zoo_bug_byters.Pipeline.Evidence.Given.{no_hallucinated-build_structural_evidence_map}
use audit_zoo_bug_byters.Pipeline.Gate.{Neighbour, verify_sink_wrapper}
use audit_zoo_bug_byters.Pipeline.Gate.Signals.{any_signal, verify_sink_wrapper_lem}
use audit_zoo_bug_byters.Pipeline.Refine.{Neighbours, refine, refine_loop}
use audit_zoo_bug_byters.Pipeline.Refine.Steps.{IsRefined, refine-IsRefined}
use audit_zoo_bug_byters.Pipeline.Refine.Loop.{IsPass, refine_loop-IsPass}
use audit_zoo_bug_byters.Pipeline.Scan.{Flags, Answers, raw_union, get_findings_with_context}
use audit_zoo_bug_byters.Pipeline.Scan.Unions.{total_count-raw_union}
use audit_zoo_bug_byters.Pipeline.Rounds.{World, run_joern}
use audit_zoo_bug_byters.Pipeline.Rounds.Counted.{IsCounted, run_joern-IsCounted}
use audit_zoo_bug_byters.Pipeline.Target.{head_finding, pick_refinement_target}
use audit_zoo_bug_byters.Pipeline.Target.Best.{finding_or, most_urgent, pick_refinement_target_lem}
use audit_zoo_bug_byters.Tests.{two_calls, ask_cmd, run_py, two_lines}
use audit_zoo_bug_byters.Tests.Catalogs.{empty_arm, empty_arm-ArmIsClean, records}

abbrev popen : Text
popen = codes "subprocess.Popen"

abbrev alts : List Text
alts = codes "Popen.communicate" ∷ [] ∷ codes "popen" ∷ []

all_flow :
    is_self_flow_source is_ident lower_char
      (choose_source is_ident lower_char (codes "Popen") [] popen alts).0
      []
      popen
    ≡ true
unfolding is_self_flow_source choose_source pick_alt truncate_field find_word word_here is_boundary
    is_ident is_ident_start lower_char strip strip_by drop_while is_space after_last before
    starts_with text_eq
all_flow = refl

no_hallucinated-build_structural_evidence_map_example :
    let (m, gs) = build_structural_evidence_map is_ident lower_char two_calls in
    (label_findings run_py two_lines 5 gs
      (triage_batch ask_cmd gs m)).tally.fp_by_hallucinated_source
    ≡ 0
no_hallucinated-build_structural_evidence_map_example =
    no_hallucinated-build_structural_evidence_map ask_cmd is_ident lower_char run_py two_lines 5
      two_calls

-- A helper that calls `system`.
abbrev run_helper : Neighbour
run_helper = record {
  name = codes "run";
  callees = codes "system" ∷ [];
  code = codes "def run(c): system (c)";
  source = [];
}

verify_sink_wrapper_lem_example :
    verify_sink_wrapper is_ident run_helper (codes "os.system" ∷ []) []
    ≡ any_signal is_ident run_helper [] (codes "os.system" ∷ [])
verify_sink_wrapper_lem_example =
    verify_sink_wrapper_lem is_ident run_helper [] (codes "os.system" ∷ [])

abbrev neighbours : Neighbours
neighbours = some run_helper ∷ none ∷ []

abbrev roles : JoernHelperClassification
roles = record {
  classifications = (codes "run", sink_wrapper) ∷ (codes "argv", source_wrapper) ∷ [];
  evidence = [];
}

refine-IsRefined_example :
    IsRefined is_ident empty_arm neighbours roles
      (refine is_ident empty_arm neighbours roles).0
      (refine is_ident empty_arm neighbours roles).1
refine-IsRefined_example = refine-IsRefined is_ident empty_arm neighbours roles empty_arm-ArmIsClean

abbrev graph : Text → Neighbours
graph sink = neighbours

abbrev classify_all : Neighbours → JoernArm → JoernHelperClassification
classify_all ns arm = roles

refine_loop-IsPass_example :
    IsPass is_ident graph classify_all empty_arm two_calls
      (refine_loop is_ident graph classify_all empty_arm two_calls)
refine_loop-IsPass_example =
    refine_loop-IsPass is_ident graph classify_all empty_arm two_calls empty_arm-ArmIsClean

abbrev flags : Flags
flags = record { direct_sink = true; relaxed_taint = false; def_use = true }

abbrev answers : Answers
answers = record {
  taint = some records;
  direct_sink = some records;
  relaxed_taint = some records;
  def_use = none;
}

abbrev no_file : Text → Option (List Text)
no_file path = none

total_count-raw_union_example :
    total_count
      (get_findings_with_context no_file 10 (parse_taint_results (some (raw_union flags answers))))
    ≡ length (parse_taint_results (some records))
      + count_dicts records
      + count_dicts []
      + count_dicts []
total_count-raw_union_example = total_count-raw_union no_file 10 flags answers

abbrev world : World
world = record {
  flags = flags;
  raises = λ k. k == 2;
  lines_around = 10;
  is_word = is_ident;
  fold = lower_char;
  read_lines = no_file;
  answers = λ k arm. answers;
  ask = λ k. ask_cmd;
  call_graph = λ k. graph;
  classify = λ k. classify_all;
}

run_joern-IsCounted_example : All (IsCounted world) (run_joern world 2 empty_arm)
run_joern-IsCounted_example = run_joern-IsCounted world 2 empty_arm

pick_refinement_target_lem_example :
    pick_refinement_target two_calls (triage_batch ask_cmd two_calls [])
    ≡ finding_or
        (most_urgent two_calls (triage_batch ask_cmd two_calls []))
        (head_finding two_calls)
pick_refinement_target_lem_example =
    pick_refinement_target_lem two_calls (triage_batch ask_cmd two_calls [])
