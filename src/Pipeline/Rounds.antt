-- ===== src/Pipeline/Rounds.antt =====
-- The rounds of the Joern arm (`Pipeline._run_joern_arm`): scan, evidence, triage, refinement. The
-- answers of Joern and of the language model are parameters, and so are the lines of the files and
-- the rounds in which an exception is raised. Timings and token counts are left out.
pub mod Chain
pub mod Counted
use audit_zoo_bug_byters.Base.{
  ℕ, suc, zero, ◌+◌, Bool, true, false, ◌||◌, Option, none, some, List, [], ◌∷◌, ◌++◌, Text, length,
  ltb, if◌then◌else◌,
}
use audit_zoo_bug_byters.Schemas.{
  Verdict, true_positive, false_positive, uncertain, JoernRecord, Finding, TriageResult,
  JoernHelperClassification,
}
use audit_zoo_bug_byters.Triage.{Reply, triage_batch}
use audit_zoo_bug_byters.Joern.{JoernArm}
use audit_zoo_bug_byters.Joern.Records.{parse_taint_results}
use audit_zoo_bug_byters.Pipeline.Evidence.{build_structural_evidence_map}
use audit_zoo_bug_byters.Pipeline.Refine.{Neighbours, Refinement, refine_loop}
use audit_zoo_bug_byters.Pipeline.Target.{same_verdict}
use audit_zoo_bug_byters.Pipeline.Scan.{
  Flags, Answers, RawCounts, raw_union, raw_recovery_counts, get_findings_with_context,
  post_dedup_counts,
}

-- `sum(1 for t in triage_results if t.verdict == v)`
unfoldable pub count_verdict : Verdict → List TriageResult → ℕ
count_verdict v [] = 0
count_verdict v (t ∷ ts) =
    let rest = count_verdict v ts in if same_verdict t.verdict v then suc rest else rest

-- `joern_catalog_grew`
unfoldable pub catalog_grew : JoernArm → JoernArm → Bool
catalog_grew before after =
    ltb (length before.sources) (length after.sources)
    || ltb (length before.sinks) (length after.sinks)
    || ltb (length before.sanitizers) (length after.sanitizers)

-- One `IterationResult` of the Joern arm, with the entries of `metrics` that are no times or tokens.
pub record Iteration : Type 0 where
  pub iteration : ℕ
  pub findings : List Finding
  pub triage_results : List TriageResult
  pub refinement_actions : List Refinement
  pub n_findings : ℕ
  pub n_tp : ℕ
  pub n_fp : ℕ
  pub n_uncertain : ℕ
  pub catalog_pre : JoernArm
  pub catalog_post : JoernArm
  pub grew : Bool
  pub raw : RawCounts
  pub post_dedup : List (Text × ℕ)

-- What the rounds ask for, each with the number of the round.
pub record World : Type 0 where
  pub flags : Flags
  -- An exception ends the round before its result is appended.
  pub raises : ℕ → Bool
  pub lines_around : ℕ
  pub is_word : ℕ → Bool
  pub fold : ℕ → ℕ
  pub read_lines : Text → Option (List Text)
  pub answers : ℕ → JoernArm → Answers
  pub ask : ℕ → Finding → Text → Reply
  pub call_graph : ℕ → Text → Neighbours
  pub classify : ℕ → Neighbours → JoernArm → JoernHelperClassification

module _ (w : World) where
  -- The findings of a round.
  unfoldable pub scan : ℕ → JoernArm → List Finding
  scan k arm =
      get_findings_with_context w.read_lines w.lines_around
        (parse_taint_results (some (raw_union w.flags (w.answers k arm))))

  -- The refinement of a round that is not the last: `k < max_iterations`.
  unfoldable pub refine_round : ℕ → Bool → JoernArm → List Finding → JoernArm × List Refinement
  refine_round k true arm fs = refine_loop w.is_word (w.call_graph k) (w.classify k) arm fs
  refine_round k false arm fs = (arm, [])

  -- The body of the loop.
  unfoldable pub run_round : ℕ → Bool → JoernArm → Iteration
  unfolding scan refine_round count_verdict
  run_round k more arm =
      let built = build_structural_evidence_map w.is_word w.fold (scan k arm) in
      let verdicts = triage_batch (w.ask k) built.1 built.0 in
      let refined = refine_round k more arm built.1 in
      record {
        iteration = k;
        findings = built.1;
        triage_results = verdicts;
        refinement_actions = refined.1;
        n_findings = length built.1;
        n_tp = count_verdict true_positive verdicts;
        n_fp = count_verdict false_positive verdicts;
        n_uncertain = count_verdict uncertain verdicts;
        catalog_pre = arm;
        catalog_post = refined.0;
        grew = catalog_grew arm refined.0;
        raw = raw_recovery_counts w.flags (w.answers k arm);
        post_dedup = post_dedup_counts built.1;
      }

  -- The loop from round `k` on, where `left` rounds come after it.
  unfoldable pub run_rounds : ℕ → ℕ → JoernArm → List Iteration
  unfolding run_round
  run_rounds k zero arm = if w.raises k then [] else run_round k false arm ∷ []
  run_rounds k (suc left) arm =
      let rest = run_rounds (suc k) left (run_round k true arm).catalog_post in
      if w.raises k then [] else run_round k true arm ∷ rest

  -- `for k in range(max_iterations + 1)`. Where no round is finished, the code returns one entry with
  -- the error in place of the empty list.
  unfoldable pub run_joern : ℕ → JoernArm → List Iteration
  unfolding run_rounds
  run_joern max_iterations arm = run_rounds 0 max_iterations arm
