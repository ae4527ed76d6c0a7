-- ===== src/Pipeline/Rounds/Counted.antt =====
-- The counts that a round of the Joern arm reports.
use audit_zoo_bug_byters.Base.{
  Bool-cases, inl, inr, ℕ, suc, zero, ◌+◌, ◌≤◌, ◌≡◌, refl, ◌∙◌, Bool, true, false, Option, none,
  some, List, [], ◌∷◌, Text, All, length, arith,
}
use audit_zoo_bug_byters.Schemas.{
  true_positive, false_positive, uncertain, JoernRecord, Finding, TriageResult,
}
use audit_zoo_bug_byters.Triage.{triage_batch}
use audit_zoo_bug_byters.Triage.Laws.{length-triage_batch}
use audit_zoo_bug_byters.Joern.{JoernArm}
use audit_zoo_bug_byters.Pipeline.Evidence.{
  build_structural_evidence_map, evidence_from, add_evidence, structural_evidence_for_finding,
}
use audit_zoo_bug_byters.Joern.Records.{count_of}
use audit_zoo_bug_byters.Joern.Tables.{total_count, count_dicts}
use audit_zoo_bug_byters.Pipeline.Scan.{raw_recovery_counts, pass_list}
use audit_zoo_bug_byters.Pipeline.Scan.Unions.{
  sum_kinds, sum_kinds-post_dedup_counts, total_count-raw_union,
}
use audit_zoo_bug_byters.Pipeline.Rounds.{
  count_verdict, Iteration, World, scan, run_round, run_rounds, run_joern,
}

-- Each verdict is counted by one of the three sums.
total-count_verdict :
    (ts : List TriageResult)
    → count_verdict true_positive ts + count_verdict false_positive ts + count_verdict uncertain ts
      ≡ length ts
unfolding count_verdict
total-count_verdict [] = refl
total-count_verdict (t ∷ ts) = grind (arith, total-count_verdict ts)

count_dicts-le-length : (items : List (Option JoernRecord)) → count_dicts items ≤ length items
count_dicts-le-length [] = omega arith
count_dicts-le-length (none ∷ items) = omega (arith, count_dicts-le-length items)
count_dicts-le-length (some item ∷ items) = omega (arith, count_dicts-le-length items)

-- The evidence leaves the counts of the findings as they are.
total_count-add_evidence :
    (is_word : ℕ → Bool) (fold : ℕ → ℕ) (i : ℕ) (f : Finding) (ev : Text)
    (r : List (ℕ × Text) × List Finding)
    → total_count (add_evidence is_word fold i f ev r).1 ≡ count_of f + total_count r.1
unfolding add_evidence
total_count-add_evidence is_word fold i f [] r = refl
total_count-add_evidence is_word fold i f (c ∷ ev) r = refl

total_count-evidence_from :
    (is_word : ℕ → Bool) (fold : ℕ → ℕ) (i : ℕ) (fs : List Finding)
    → total_count (evidence_from is_word fold i fs).1 ≡ total_count fs
unfolding evidence_from
total_count-evidence_from is_word fold i [] = refl
total_count-evidence_from is_word fold i (f ∷ fs) = omega (
  arith,
  total_count-evidence_from is_word fold (suc i) fs,
  total_count-add_evidence is_word fold i f (structural_evidence_for_finding is_word fold f)
      (evidence_from is_word fold (suc i) fs),
)

total_count-build_structural_evidence_map :
    (is_word : ℕ → Bool) (fold : ℕ → ℕ) (fs : List Finding)
    → total_count (build_structural_evidence_map is_word fold fs).1 ≡ total_count fs
unfolding build_structural_evidence_map
total_count-build_structural_evidence_map is_word fold fs =
    total_count-evidence_from is_word fold 0 fs

module _ (w : World) where
  -- The counts of a round agree with one another: one verdict for each finding, and the sums over the
  -- verdicts and over the kinds of recovery are the number of findings. The findings stand for at most
  -- as many records as the passes counted.
  abbrev pub IsCounted : Iteration → Type 0
  IsCounted r =
      (length r.triage_results ≡ length r.findings)
      × (r.n_findings ≡ length r.findings)
      × (r.n_tp + r.n_fp + r.n_uncertain ≡ r.n_findings)
      × (sum_kinds r.post_dedup ≡ r.n_findings)
      × (total_count r.findings ≤ r.raw.taint + r.raw.direct_sink + r.raw.relaxed + r.raw.def_use)

  run_round-IsCounted : (k : ℕ) (more : Bool) (arm : JoernArm) → IsCounted (run_round w k more arm)
  unfolding run_round scan raw_recovery_counts
  run_round-IsCounted k more arm =
      let found = scan w k arm in
      let built = build_structural_evidence_map w.is_word w.fold found in
      let same = length-triage_batch (w.ask k) built.1 built.0 in
      let a = w.answers k arm in
      (
        same,
        refl,
        total-count_verdict (triage_batch (w.ask k) built.1 built.0) ∙ same,
        sum_kinds-post_dedup_counts built.1,
        omega (
          arith,
          total_count-build_structural_evidence_map w.is_word w.fold found,
          total_count-raw_union w.read_lines w.lines_around w.flags a,
          count_dicts-le-length (pass_list w.flags.direct_sink a.direct_sink),
          count_dicts-le-length (pass_list w.flags.relaxed_taint a.relaxed_taint),
          count_dicts-le-length (pass_list w.flags.def_use a.def_use),
        ),
      )

  run_rounds-IsCounted : (k left : ℕ) (arm : JoernArm) → All IsCounted (run_rounds w k left arm)
  unfolding run_rounds
  run_rounds-IsCounted k zero arm = elim (Bool-cases (w.raises k)) [
    | inl bad ↦ rw bad tt
    | inr good ↦ rw good (run_round-IsCounted k false arm, tt)
  ]
  run_rounds-IsCounted k (suc left) arm = elim (Bool-cases (w.raises k)) [
    | inl bad ↦ rw bad tt
    | inr good ↦ rw good (run_round-IsCounted k true arm, run_rounds-IsCounted (suc k) left _)
  ]

  -- In every finished round of the arm there is one verdict for each finding, the three sums over the
  -- verdicts and the counts by recovery kind both add up to the number of findings, and the findings
  -- stand for at most as many records as the passes of the round counted.
  pub run_joern-IsCounted :
      (max_iterations : ℕ) (arm : JoernArm) → All IsCounted (run_joern w max_iterations arm)
  unfolding run_joern
  run_joern-IsCounted max_iterations arm = run_rounds-IsCounted 0 max_iterations arm
