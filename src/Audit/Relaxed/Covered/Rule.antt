-- ===== src/Audit/Relaxed/Covered/Rule.antt =====
-- The missed clusters of `_relaxed_score_for_iter` against the rule of its docstring, by which a row
-- covers every cluster near its line. The code's loop stops at the first.
use audit_zoo_bug_byters.Base.{
  ℕ, suc, zero, ◌+◌, ◌≤◌, ◌<◌, ◌≡◌, refl, Bool, true, false, not, ◌&&◌, ◌||◌, ◌==◌, some, List, [],
  ◌∷◌, ℤ, pos, eq_ℤ, Text, is_empty, path_matches, length, map, get_elem?, Bool-cases, inl, inr,
  arith, if◌then◌else◌,
}
use audit_zoo_bug_byters.Audit.Clusters.{cluster_lines, in_span}
use audit_zoo_bug_byters.Audit.Rows.{AlignedRow, CveRecord, is_committed_tp, is_hallucinated_fp}
use audit_zoo_bug_byters.Audit.Relaxed.{
  Hunks, line_of, find_cluster, cluster_of, count_false, relaxed_score_for_iter,
}
use audit_zoo_bug_byters.Audit.Relaxed.Covered.{
  values_from, same_index, covers, covered, fn_relaxed-covered,
}

find_cluster-above :
    (tolerance : ℕ) (line : ℤ) (idx m : ℕ) (cs : List (ℕ × ℕ))
    → m < idx
    → same_index (find_cluster tolerance line idx cs) m ≡ false
unfolding find_cluster same_index
find_cluster-above tolerance line idx m [] l = refl
find_cluster-above tolerance line idx m (c ∷ cs) l =
    ground (arith, find_cluster-above tolerance line (suc idx) m cs (omega arith))

-- The cluster that the search finds is near the line.
find_cluster-in_span :
    (tolerance : ℕ) (line : ℤ) (idx i : ℕ) (cs : List (ℕ × ℕ)) {c : ℕ × ℕ}
    → get_elem? cs i ≡ some c
    → same_index (find_cluster tolerance line idx cs) (idx + i) ≡ true
    → in_span tolerance line c ≡ true
unfolding find_cluster same_index
find_cluster-in_span tolerance line idx i [] at found = cc
find_cluster-in_span tolerance line idx zero (d ∷ cs) at found =
    grind (arith, find_cluster-above tolerance line (suc idx) (idx + 0) cs (omega arith))
find_cluster-in_span tolerance line idx (suc i) (d ∷ cs) at found =
    let e : idx + suc i ≡ suc idx + i = omega arith in
    elim (Bool-cases (in_span tolerance line d)) [
      | inl near ↦ let same : (idx + suc i == idx) ≡ true = rw near at found in ground arith
      | inr far ↦ find_cluster-in_span tolerance line (suc idx) i cs at (rw (far, e) at found)
    ]

module _ (vuln_file : Text) (tolerance : ℕ) where
  -- The rule of the docstring: the row is of the vulnerable side, the model committed to it, its source
  -- was not invented, and its line in this file is near the cluster.
  pub touches : AlignedRow → ℕ × ℕ → Bool
  touches row c =
      not row.patched
      && not (is_hallucinated_fp row.label row.triage.verdict row.triage.source_in_snippet)
      && is_committed_tp row.label row.triage.verdict row.triage.source_in_snippet
      && (not (is_empty vuln_file)
          && path_matches row.triage.file vuln_file
          && not (eq_ℤ (line_of row.triage) (pos 0)))
      && in_span tolerance (line_of row.triage) c

  pub touched : List AlignedRow → ℕ × ℕ → Bool
  unfolding touches
  touched [] c = false
  touched (row ∷ rows) c = touches row c || touched rows c

  -- The number of clusters that no row touches.
  pub count_untouched : List AlignedRow → List (ℕ × ℕ) → ℕ
  unfolding touched
  count_untouched rows [] = 0
  count_untouched rows (c ∷ cs) =
      let rest = count_untouched rows cs in if touched rows c then rest else suc rest

  covers-touches :
      (clusters : List (ℕ × ℕ)) (row : AlignedRow) (i : ℕ) {c : ℕ × ℕ}
      → get_elem? clusters i ≡ some c
      → covers vuln_file clusters tolerance row i ≡ true
      → touches row c ≡ true
  unfolding covers touches cluster_of
  covers-touches clusters row i at found =
      ground (arith, find_cluster-in_span tolerance (line_of row.triage) 0 i clusters at)

  covered-touched :
      (clusters : List (ℕ × ℕ)) (rows : List AlignedRow) (i : ℕ) {c : ℕ × ℕ}
      → get_elem? clusters i ≡ some c
      → covered vuln_file clusters tolerance rows i ≡ true
      → touched rows c ≡ true
  unfolding covered touched
  covered-touched clusters [] i at found = cc
  covered-touched clusters (row ∷ rows) i at found =
      ground (arith, covers-touches clusters row i at, covered-touched clusters rows i at)

  -- From index `idx` on, a cluster that is covered is touched.
  count_untouched-le-count_false :
      (f : ℕ → Bool) (rows : List AlignedRow) (idx : ℕ) (cs : List (ℕ × ℕ))
      → ((i : ℕ) (c : ℕ × ℕ) → get_elem? cs i ≡ some c → f (idx + i) ≡ true → touched rows c ≡ true)
      → count_untouched rows cs ≤ count_false (values_from f idx (length cs))
  unfolding count_untouched
  count_untouched-le-count_false f rows idx [] h = omega arith
  count_untouched-le-count_false f rows idx (c ∷ cs) h =
      let rest =
        count_untouched-le-count_false f rows (suc idx) cs (λ i d at p.
          let e : idx + suc i ≡ suc idx + i = omega arith in h (suc i) d at (rw e p)) in
      elim (Bool-cases (f idx)) [
        | inl hit ↦
            let e : idx + 0 ≡ idx = omega arith in
            let t : touched rows c ≡ true = h 0 c refl (rw e hit) in rw (hit, t) rest
        | inr missed ↦ rw missed (elim (Bool-cases (touched rows c)) [
          | inl t ↦ rw t (omega (arith, rest))
          | inr t ↦ rw t (omega (arith, rest))
        ])
      ]

-- The missed clusters of the relaxed lane are those that no row covers, where a row of the vulnerable side covers the first cluster near its line, if the model committed to it and its source was not invented. They are at least as many as by the rule that a row covers every cluster near its line.
pub fn_relaxed-relaxed_score_for_iter :
    (rows : List AlignedRow) (truth : CveRecord) (hunks : Hunks) (tolerance gap : ℕ)
    → let clusters = cluster_lines (map some truth.vulnerable_lines) gap in
      let missed = (relaxed_score_for_iter rows truth hunks tolerance gap).fn_relaxed in
      (missed
        ≡ count_false (
            values_from
              (covered truth.vulnerable_file clusters tolerance rows)
              0
              (length clusters)))
      × (count_untouched truth.vulnerable_file tolerance rows clusters ≤ missed)
fn_relaxed-relaxed_score_for_iter rows truth hunks tolerance gap =
    let clusters = cluster_lines (map some truth.vulnerable_lines) gap in
    let exact = fn_relaxed-covered rows truth hunks tolerance gap in
    let fewer =
      count_untouched-le-count_false truth.vulnerable_file tolerance
        (covered truth.vulnerable_file clusters tolerance rows) rows 0 clusters
        (λ i c at p.
          let e : 0 + i ≡ i = omega arith in
          covered-touched truth.vulnerable_file tolerance clusters rows i at (rw e at p)) in
    (exact, rw exact fewer)
