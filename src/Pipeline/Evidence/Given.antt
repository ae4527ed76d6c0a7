-- ===== src/Pipeline/Evidence/Given.antt =====
-- The evidence of the map and the evidence of the findings.
use audit_zoo_bug_byters.Base.{
  ℕ, suc, ◌<◌, ◌≡◌, refl, inl, inr, Bool, List, [], ◌∷◌, ℤ, Text, arith,
}
use audit_zoo_bug_byters.Schemas.{Finding}
use audit_zoo_bug_byters.Triage.{Reply, evidence_at, triage_batch}
use audit_zoo_bug_byters.Score.{label_findings}
use audit_zoo_bug_byters.Score.Lockstep.{IsGiven, no_hallucinated-triage_batch}
use audit_zoo_bug_byters.Pipeline.Evidence.{
  add_evidence, evidence_from, build_structural_evidence_map,
}

module _ (ask : Finding → Text → Reply) where
  -- An entry for an earlier index is not read.
  IsGiven-cons :
      (i k : ℕ) (ev : Text) (fs : List Finding) (m : List (ℕ × Text))
      → i < k
      → IsGiven ask k fs m
      → IsGiven ask k fs ((i, ev) ∷ m)
  unfolding evidence_at
  IsGiven-cons i k ev [] m h g = tt
  IsGiven-cons i k ev (f ∷ fs) m h (here, g) =
      (ground arith, IsGiven-cons i (suc k) ev fs m (omega arith) g)

  module _ (is_word : ℕ → Bool) (fold : ℕ → ℕ) where
    add_evidence-IsGiven :
        (i : ℕ) (f : Finding) (ev : Text) (m : List (ℕ × Text)) (fs : List Finding)
        → evidence_at m i ≡ []
        → IsGiven ask (suc i) fs m
        → IsGiven ask i
            (add_evidence is_word fold i f ev (m, fs)).1
            (add_evidence is_word fold i f ev (m, fs)).0
    unfolding add_evidence
    add_evidence-IsGiven i f [] m fs h g = (inr h, g)
    add_evidence-IsGiven i f (c ∷ ev) m fs h g = (
      inl (unfold evidence_at in ground arith),
      IsGiven-cons i (suc i) (c ∷ ev) fs m (omega arith) g,
    )

    evidence_at-add_evidence :
        (i k : ℕ) (f : Finding) (ev : Text) (m : List (ℕ × Text)) (fs : List Finding)
        → k < i
        → evidence_at m k ≡ []
        → evidence_at (add_evidence is_word fold i f ev (m, fs)).0 k ≡ []
    unfolding add_evidence evidence_at
    evidence_at-add_evidence i k f [] m fs l h = h
    evidence_at-add_evidence i k f (c ∷ ev) m fs l h = ground arith

    evidence_at-evidence_from :
        (i k : ℕ) (fs : List Finding)
        → k < i
        → evidence_at (evidence_from is_word fold i fs).0 k ≡ []
    unfolding evidence_from
    evidence_at-evidence_from i k [] l = unfold evidence_at in refl
    evidence_at-evidence_from i k (f ∷ fs) l =
        let rest = evidence_from is_word fold (suc i) fs in
        evidence_at-add_evidence i k f _ rest.0 rest.1 l
          (evidence_at-evidence_from (suc i) k fs (omega arith))

    evidence_from-IsGiven :
        (i : ℕ) (fs : List Finding)
        → IsGiven ask i (evidence_from is_word fold i fs).1 (evidence_from is_word fold i fs).0
    unfolding evidence_from
    evidence_from-IsGiven i [] = tt
    evidence_from-IsGiven i (f ∷ fs) =
        let rest = evidence_from is_word fold (suc i) fs in
        add_evidence-IsGiven i f _ rest.0 rest.1
          (evidence_at-evidence_from (suc i) i fs (omega arith)) (evidence_from-IsGiven (suc i) fs)

    -- Triage and scoring agree on the quoted sources of every batch that goes through the pipeline:
    -- with the map and the findings that `_build_structural_evidence_map` makes of any findings,
    -- and whatever the language model answers, the scorer labels no finding as hallucinated.
    pub no_hallucinated-build_structural_evidence_map :
        (vuln_file : Text) (lines : List ℤ) (tolerance : ℕ) (fs : List Finding)
        → let (m, gs) = build_structural_evidence_map is_word fold fs in
          (label_findings vuln_file lines tolerance gs
            (triage_batch ask gs m)).tally.fp_by_hallucinated_source
          ≡ 0
    unfolding build_structural_evidence_map
    no_hallucinated-build_structural_evidence_map vuln_file lines tolerance fs =
        let built = evidence_from is_word fold 0 fs in
        no_hallucinated-triage_batch ask vuln_file lines tolerance built.1 built.0
          (evidence_from-IsGiven 0 fs)
