-- ===== src/Score/Committed.antt =====
-- The counts, and the findings that the model committed to.
use audit_zoo_bug_byters.Base.{
  ℕ, ◌≡◌, refl, ap, Bool, true, false, Option, none, some, List, [], ◌∷◌, ℤ, Text, if◌then◌else◌,
  arith, Bool-cases, inl, inr,
}
use audit_zoo_bug_byters.Schemas.{
  Verdict, true_positive, false_positive, uncertain, Finding, TriageResult,
}
use audit_zoo_bug_byters.Score.{
  Tally, no_tally, tally_one, tally_finding, tally_all, label_findings, count_missed,
}

abbrev pub is_committed : Verdict → Bool
is_committed true_positive = true
is_committed false_positive = false
is_committed uncertain = false

-- The pairs that the model committed to.
abbrev pub committed : List Finding → List TriageResult → List Finding × List TriageResult
committed [] ts = ([], [])
committed (f ∷ fs) [] = ([], [])
committed (f ∷ fs) (t ∷ ts) =
    let (gs, us) = committed fs ts in if is_committed t.verdict then (f ∷ gs, t ∷ us) else (gs, us)

-- Two states of the loop agree on what is scored.
record SameScore (s u : Tally) : Type 0 where
  same_tp : s.tp ≡ u.tp
  same_fp : s.fp ≡ u.fp
  same_hallucinated : s.fp_by_hallucinated_source ≡ u.fp_by_hallucinated_source
  same_lines : s.matched_vuln_lines ≡ u.matched_vuln_lines

tally_one-skipped :
    (s u : Tally) (v : Verdict) (m : Option ℤ) (b : Bool)
    → is_committed v ≡ false
    → SameScore s u
    → SameScore (tally_one s v m b) u
unfolding tally_one
tally_one-skipped s u true_positive m b h k = cc
tally_one-skipped s u false_positive (some w) b h k = assumption
tally_one-skipped s u false_positive none b h k = assumption
tally_one-skipped s u uncertain (some w) b h k = assumption
tally_one-skipped s u uncertain none b h k = assumption

tally_one-SameScore :
    (s u : Tally) (v : Verdict) (m : Option ℤ) (b : Bool)
    → SameScore s u
    → SameScore (tally_one s v m b) (tally_one u v m b)
unfolding tally_one
tally_one-SameScore s u true_positive m false k = ground arith
tally_one-SameScore s u true_positive (some w) true k = ground arith
tally_one-SameScore s u true_positive none true k = ground arith
tally_one-SameScore s u false_positive (some w) b k = assumption
tally_one-SameScore s u false_positive none b k = assumption
tally_one-SameScore s u uncertain (some w) b k = assumption
tally_one-SameScore s u uncertain none b k = assumption

module _ (vuln_file : Text) (lines : List ℤ) (tolerance : ℕ) where
  tally_all-committed :
      (s u : Tally) (fs : List Finding) (ts : List TriageResult)
      → SameScore s u
      → SameScore
          (tally_all vuln_file lines tolerance s fs ts)
          (tally_all vuln_file lines tolerance u (committed fs ts).0 (committed fs ts).1)
  unfolding tally_all
  tally_all-committed s u [] ts k = k
  tally_all-committed s u (f ∷ fs) [] k = k
  tally_all-committed s u (f ∷ fs) (t ∷ ts) k =
      let s' = tally_finding vuln_file lines tolerance s f t in
      elim (Bool-cases (is_committed t.verdict)) [
        | inl said ↦ rw said (
            tally_all-committed s' (tally_finding vuln_file lines tolerance u f t) fs ts
              (unfold tally_finding in tally_one-SameScore s u t.verdict _ _ k))
        | inr unsaid ↦ rw unsaid (
            tally_all-committed s' u fs ts
              (unfold tally_finding in tally_one-skipped s u t.verdict _ _ unsaid k))
      ]

  -- Dropping every pair whose verdict is not `true_positive` changes none of `tp`, `fp`,
  -- `fp_by_hallucinated_source` and `fn`: an uncertain or a suppressed finding is never scored, and
  -- credits no vulnerable line.
  pub label_findings-committed :
      (fs : List Finding) (ts : List TriageResult)
      → let scored = label_findings vuln_file lines tolerance in
        let (gs, us) = committed fs ts in
        ((scored fs ts).tally.tp ≡ (scored gs us).tally.tp)
        × ((scored fs ts).tally.fp ≡ (scored gs us).tally.fp)
        × ((scored fs ts).tally.fp_by_hallucinated_source
            ≡ (scored gs us).tally.fp_by_hallucinated_source)
        × ((scored fs ts).fn ≡ (scored gs us).fn)
  unfolding label_findings
  label_findings-committed fs ts =
      let k =
        tally_all-committed no_tally no_tally fs ts (record {
          same_tp = refl;
          same_fp = refl;
          same_hallucinated = refl;
          same_lines = refl;
        }) in
      (k.same_tp, k.same_fp, k.same_hallucinated, ap (count_missed lines) k.same_lines)
