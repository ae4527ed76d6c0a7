-- ===== src/Audit/Relaxed/Counts.antt =====
-- How the counters of the relaxed lanes hang together.
use audit_zoo_bug_byters.Base.{
  ℕ, suc, zero, ◌+◌, ◌≤◌, ◌≡◌, refl, ap, Bool, true, false, not, ◌&&◌, ◌||◌, Option, none, some,
  List, [], ◌∷◌, Text, codes, text_eq, length, set, replicate, map, Bool-cases, inl, inr, arith,
  if◌then◌else◌,
}
use audit_zoo_bug_byters.Base.Strings.Laws.{text_eq_sound}
use audit_zoo_bug_byters.Audit.Clusters.{cluster_lines}
use audit_zoo_bug_byters.Audit.Rows.{AlignedRow, CveRecord, is_committed_tp, is_hallucinated_fp}
use audit_zoo_bug_byters.Audit.Relaxed.{
  Hunks, Lane, credit, count_false, count_credits, score_row, score_rows, finish_lane, no_lane,
  relaxed_score_for_iter,
}

-- A row counts for the lanes: its side is the vulnerable one, and the model committed to it, with
-- a source of its own invention or not.
abbrev pub is_scored : AlignedRow → Bool
is_scored row =
    not row.patched
    && (is_hallucinated_fp row.label row.triage.verdict row.triage.source_in_snippet
        || is_committed_tp row.label row.triage.verdict row.triage.source_in_snippet)

abbrev pub count_scored : List AlignedRow → ℕ
count_scored [] = 0
count_scored (row ∷ rows) = (if is_scored row then 1 else 0) + count_scored rows

count_false-set : (bs : List Bool) (i : ℕ) → count_false bs ≤ suc (count_false (set bs i true))
count_false-set [] i = omega arith
count_false-set (true ∷ bs) zero = omega arith
count_false-set (false ∷ bs) zero = omega arith
count_false-set (true ∷ bs) (suc i) = omega (arith, count_false-set bs i)
count_false-set (false ∷ bs) (suc i) = omega (arith, count_false-set bs i)

count_false-replicate : (n : ℕ) → count_false (replicate n false) ≡ n
count_false-replicate zero = refl
count_false-replicate (suc n) = ap suc (count_false-replicate n)

count_credits-le : (cs us : List Bool) → count_credits cs us ≤ count_false cs
unfolding count_credits
count_credits-le [] us = omega arith
count_credits-le (true ∷ cs) [] = omega arith
count_credits-le (false ∷ cs) [] = omega arith
count_credits-le (true ∷ cs) (u ∷ us) = ground (arith, count_credits-le cs us)
count_credits-le (false ∷ cs) (u ∷ us) = ground (arith, count_credits-le cs us)

-- What the loop keeps, for `n` clusters and the number of rows scored so far.
record IsLane (n scored : ℕ) (s : Lane) : Type 0 where
  counted : s.tp_relaxed + s.fp_relaxed ≡ scored
  credited : n ≤ s.tp_relaxed + count_false s.cluster_covered
  bounded : count_false s.cluster_covered ≤ n

count_false-set_le : (bs : List Bool) (i : ℕ) → count_false (set bs i true) ≤ count_false bs
count_false-set_le [] i = omega arith
count_false-set_le (true ∷ bs) zero = omega arith
count_false-set_le (false ∷ bs) zero = omega arith
count_false-set_le (true ∷ bs) (suc i) = omega (arith, count_false-set_le bs i)
count_false-set_le (false ∷ bs) (suc i) = omega (arith, count_false-set_le bs i)

credit-IsLane :
    (n k : ℕ) (s : Lane) (fake said unsure : Bool) (cluster : Option ℕ) (hunk : Bool)
    → IsLane n k s
    → IsLane n (k + (if fake || said then 1 else 0)) (credit s fake said unsure cluster hunk)
unfolding credit
credit-IsLane n k s true said unsure cluster hunk l = omega arith
credit-IsLane n k s false true unsure (some i) hunk l =
    omega (arith, count_false-set s.cluster_covered i, count_false-set_le s.cluster_covered i)
credit-IsLane n k s false true unsure none true l = omega arith
credit-IsLane n k s false true unsure none false l = omega arith
credit-IsLane n k s false false true (some i) hunk l = omega arith
credit-IsLane n k s false false true none hunk l = omega arith
credit-IsLane n k s false false false cluster hunk l = omega arith

module _ (vuln_file : Text) (clusters : List (ℕ × ℕ)) (hunks : Hunks) (tolerance : ℕ) where
  score_row-IsLane :
      (n k : ℕ) (s : Lane) (row : AlignedRow)
      → IsLane n k s
      → IsLane n
          (k + (if is_scored row then 1 else 0))
          (score_row vuln_file clusters hunks tolerance s row)
  unfolding score_row
  score_row-IsLane n k s row l = elim (Bool-cases row.patched) [
    | inl fixed ↦ rw fixed (omega arith)
    | inr open_bug ↦ rw open_bug (credit-IsLane n k s _ _ _ _ _ l)
  ]

  score_rows-IsLane :
      (n k : ℕ) (s : Lane) (rows : List AlignedRow)
      → IsLane n k s
      → IsLane n (k + count_scored rows) (score_rows vuln_file clusters hunks tolerance s rows)
  unfolding score_rows
  score_rows-IsLane n k s [] l = omega arith
  score_rows-IsLane n k s (row ∷ rows) l =
      let r =
        score_rows-IsLane n (k + (if is_scored row then 1 else 0))
          (score_row vuln_file clusters hunks tolerance s row) rows
          (score_row-IsLane n k s row l) in
      omega (arith, r.counted, r.credited, r.bounded)

no_lane-IsLane : (n : ℕ) → IsLane n 0 (no_lane n)
no_lane-IsLane n = omega (arith, count_false-replicate n)

finish_lane-counts :
    (n k : ℕ) (s : Lane)
    → IsLane n k s
    → let r = finish_lane n s in
      (r.tp_relaxed + r.fp_relaxed ≡ k)
      × (r.fn_relaxed ≤ r.n_gt_clusters)
      × (r.n_gt_clusters ≤ r.tp_relaxed + r.fn_relaxed)
      × (r.fn_uncertain_relaxed + r.n_uncertain_credits ≡ r.fn_relaxed)
      × (r.tp_uncertain_relaxed + r.fn_uncertain_relaxed ≡ r.tp_relaxed + r.fn_relaxed)
      × (r.fp_uncertain_relaxed ≡ r.fp_relaxed)
unfolding finish_lane
finish_lane-counts n k s l =
    let b = count_credits-le s.cluster_covered s.cluster_uncertain in
    (l.counted, l.bounded, l.credited, omega arith, omega arith, refl)

-- The relaxed true and false positives are together the rows of the vulnerable side that the model
-- committed to; the missed clusters are at most all, and each cluster that is not missed has a true
-- positive of its own. The uncertain lane moves its credits from the missed clusters to the true
-- positives, never more than there are missed, and leaves the false positives alone.
pub relaxed_score_for_iter-counts :
    (rows : List AlignedRow) (truth : CveRecord) (hunks : Hunks) (tolerance gap : ℕ)
    → let r = relaxed_score_for_iter rows truth hunks tolerance gap in
      (r.tp_relaxed + r.fp_relaxed ≡ count_scored rows)
      × (r.fn_relaxed ≤ r.n_gt_clusters)
      × (r.n_gt_clusters ≤ r.tp_relaxed + r.fn_relaxed)
      × (r.fn_uncertain_relaxed + r.n_uncertain_credits ≡ r.fn_relaxed)
      × (r.tp_uncertain_relaxed + r.fn_uncertain_relaxed ≡ r.tp_relaxed + r.fn_relaxed)
      × (r.fp_uncertain_relaxed ≡ r.fp_relaxed)
unfolding relaxed_score_for_iter
relaxed_score_for_iter-counts rows truth hunks tolerance gap =
    let clusters = cluster_lines (map some truth.vulnerable_lines) gap in
    let n : ℕ = length clusters in
    finish_lane-counts n (count_scored rows)
      (score_rows truth.vulnerable_file clusters hunks tolerance (no_lane n) rows)
      (let l =
          score_rows-IsLane truth.vulnerable_file clusters hunks tolerance n 0 (no_lane n) rows
            (no_lane-IsLane n) in
        omega (arith, l.counted, l.credited, l.bounded))

-- A row is never both hallucinated and committed.
pub hallucinated-not-committed :
    (label verdict : Text) (source : Option Bool)
    → is_hallucinated_fp label verdict source ≡ true
    → is_committed_tp label verdict source ≡ false
unfolding is_hallucinated_fp is_committed_tp
hallucinated-not-committed [] verdict source h = unfold text_eq in ground arith
hallucinated-not-committed (c ∷ l) verdict source h =
    let e : text_eq (c ∷ l) (codes "fp_by_hallucinated_source") ≡ true = ground arith in
    rw (text_eq_sound (c ∷ l) (codes "fp_by_hallucinated_source") e) (unfold text_eq in refl)
