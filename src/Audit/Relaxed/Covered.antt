-- ===== src/Audit/Relaxed/Covered.antt =====
-- Which clusters the relaxed lane counts as missed.
pub mod Rule
use audit_zoo_bug_byters.Base.{
  ℕ, suc, zero, ◌+◌, ◌≤◌, ◌≡◌, refl, sym, ap, ◌∙◌, Bool, true, false, not, ◌&&◌, ◌||◌, ◌==◌, Option,
  none, some, List, [], ◌∷◌, Text, length, set, replicate, map, Bool-cases, inl, inr, arith,
}
use audit_zoo_bug_byters.Audit.Clusters.{cluster_lines}
use audit_zoo_bug_byters.Audit.Rows.{AlignedRow, CveRecord, is_committed_tp, is_hallucinated_fp}
use audit_zoo_bug_byters.Audit.Relaxed.{
  Hunks, Lane, credit, count_false, cluster_of, in_hunk, score_row, score_rows, no_lane,
  relaxed_score_for_iter,
}

-- The values of `f` at the `n` indices from `idx` on.
abbrev pub values_from : (ℕ → Bool) → ℕ → ℕ → List Bool
values_from f idx zero = []
values_from f idx (suc n) = f idx ∷ values_from f (suc idx) n

values_from-cong :
    (f g : ℕ → Bool) (idx n : ℕ)
    → ((j : ℕ) → idx ≤ j → f j ≡ g j)
    → values_from f idx n ≡ values_from g idx n
values_from-cong f g idx zero h = refl
values_from-cong f g idx (suc n) h =
    rw (h idx (omega arith), values_from-cong f g (suc idx) n (λ j l. h j (omega arith)))

values_from-false : (idx n : ℕ) → values_from (λ _. false) idx n ≡ replicate n false
values_from-false idx zero = refl
values_from-false idx (suc n) = ap (λ l. false ∷ l) (values_from-false (suc idx) n)

set-values_from :
    (f : ℕ → Bool) (idx n i : ℕ)
    → set (values_from f idx n) i true ≡ values_from (λ j. f j || j == idx + i) idx n
set-values_from f idx zero i = refl
set-values_from f idx (suc n) zero =
    let here : (f idx || idx == idx + 0) ≡ true = ground arith in
    rw (here, values_from-cong f (λ j. f j || j == idx + 0) (suc idx) n (λ j l. ground arith))
set-values_from f idx (suc n) (suc i) =
    let here : (f idx || idx == idx + suc i) ≡ f idx = ground arith in
    let e : suc idx + i ≡ idx + suc i = omega arith in rw (here, set-values_from f (suc idx) n i, e)

stays : (n : ℕ) (f : ℕ → Bool) → values_from f 0 n ≡ values_from (λ i. f i || false) 0 n
stays n f = values_from-cong f (λ i. f i || false) 0 n (λ j _. ground arith)

same_index : Option ℕ → ℕ → Bool
same_index none i = false
same_index (some j) i = i == j

module _ (vuln_file : Text) (clusters : List (ℕ × ℕ)) (tolerance : ℕ) where
  -- The row covers the cluster with index `i`: it is of the vulnerable side, the model committed to
  -- it, its source was not invented, and this is the first cluster near its line.
  pub covers : AlignedRow → ℕ → Bool
  unfolding same_index
  covers row i =
      not row.patched
      && not (is_hallucinated_fp row.label row.triage.verdict row.triage.source_in_snippet)
      && is_committed_tp row.label row.triage.verdict row.triage.source_in_snippet
      && same_index (cluster_of vuln_file clusters tolerance row.triage) i

  pub covered : List AlignedRow → ℕ → Bool
  unfolding covers
  covered [] i = false
  covered (row ∷ rows) i = covers row i || covered rows i

  cluster_covered-credit :
      (n : ℕ) (f : ℕ → Bool) (s : Lane) (fake said unsure : Bool) (cluster : Option ℕ) (hunk : Bool)
      → s.cluster_covered ≡ values_from f 0 n
      → (credit s fake said unsure cluster hunk).cluster_covered
        ≡ values_from (λ i. f i || (not fake && said && same_index cluster i)) 0 n
  unfolding credit same_index
  cluster_covered-credit n f s true said unsure cluster hunk h = h ∙ stays n f
  cluster_covered-credit n f s false true unsure (some i) hunk h =
      rw h (set-values_from f 0 n i ∙ values_from-cong _ _ 0 n (λ j _. ground arith))
  cluster_covered-credit n f s false true unsure none true h = h ∙ stays n f
  cluster_covered-credit n f s false true unsure none false h = h ∙ stays n f
  cluster_covered-credit n f s false false true (some i) hunk h = h ∙ stays n f
  cluster_covered-credit n f s false false true none hunk h = h ∙ stays n f
  cluster_covered-credit n f s false false false cluster hunk h = h ∙ stays n f

module _ (vuln_file : Text) (clusters : List (ℕ × ℕ)) (hunks : Hunks) (tolerance n : ℕ) where
  cluster_covered-score_row :
      (f : ℕ → Bool) (s : Lane) (row : AlignedRow)
      → s.cluster_covered ≡ values_from f 0 n
      → (score_row vuln_file clusters hunks tolerance s row).cluster_covered
        ≡ values_from (λ i. f i || covers vuln_file clusters tolerance row i) 0 n
  unfolding score_row covers
  cluster_covered-score_row f s row h = elim (Bool-cases row.patched) [
    | inl fixed ↦ rw (fixed, h) (values_from-cong f _ 0 n (λ j _. ground arith))
    | inr open_bug ↦ rw open_bug (
        cluster_covered-credit vuln_file clusters tolerance n f s _ _ _
          (cluster_of vuln_file clusters tolerance row.triage) (in_hunk hunks row.triage) h
        ∙ values_from-cong _ _ 0 n (λ j _. ground arith))
  ]

  cluster_covered-score_rows :
      (f : ℕ → Bool) (s : Lane) (rows : List AlignedRow)
      → s.cluster_covered ≡ values_from f 0 n
      → (score_rows vuln_file clusters hunks tolerance s rows).cluster_covered
        ≡ values_from (λ i. f i || covered vuln_file clusters tolerance rows i) 0 n
  unfolding score_rows covered
  cluster_covered-score_rows f s [] h = h ∙ stays n f
  cluster_covered-score_rows f s (row ∷ rows) h =
      cluster_covered-score_rows (λ i. f i || covers vuln_file clusters tolerance row i)
        (score_row vuln_file clusters hunks tolerance s row) rows
        (cluster_covered-score_row f s row h)
      ∙ values_from-cong _ _ 0 n (λ j _. ground arith)

-- The missed clusters of the relaxed lane are those that no row covers.
pub fn_relaxed-covered :
    (rows : List AlignedRow) (truth : CveRecord) (hunks : Hunks) (tolerance gap : ℕ)
    → let clusters = cluster_lines (map some truth.vulnerable_lines) gap in
      (relaxed_score_for_iter rows truth hunks tolerance gap).fn_relaxed
      ≡ count_false
          (values_from (covered truth.vulnerable_file clusters tolerance rows) 0 (length clusters))
unfolding relaxed_score_for_iter
fn_relaxed-covered rows truth hunks tolerance gap =
    let clusters = cluster_lines (map some truth.vulnerable_lines) gap in
    let n : ℕ = length clusters in
    ap count_false (
      cluster_covered-score_rows truth.vulnerable_file clusters hunks tolerance n (λ _. false)
        (no_lane n) rows (sym (values_from-false 0 n)))
