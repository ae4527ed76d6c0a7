-- ===== src/Audit/Relaxed.antt =====
-- `_relaxed_score_for_iter`: the lanes of the audit that credit clusters of vulnerable lines and
-- hunks of the patch.
pub mod Counts
pub mod Covered
use audit_zoo_bug_byters.Base.{
  ℕ, suc, zero, ◌+◌, ◌-◌, Bool, true, false, not, ◌&&◌, ◌||◌, Option, none, some, List, [], ◌∷◌,
  ◌++◌, ℤ, pos, eq_ℤ, Text, codes, text_eq, is_empty, ends_with, path_matches, length, set,
  replicate, map, if◌then◌else◌,
}
use audit_zoo_bug_byters.Audit.Clusters.{cluster_lines, in_span, line_in_ranges}
use audit_zoo_bug_byters.Audit.Rows.{
  TriageRow, AlignedRow, CveRecord, is_committed_tp, is_hallucinated_fp,
}

-- The map of changed hunks, in the order of its iteration.
abbrev pub Hunks : Type 0
Hunks = List (Text × List (ℕ × ℕ))

-- `int(triage.get("line", 0))`, and 0 where that raises
abbrev pub line_of : TriageRow → ℤ
line_of row = elim row.line.parsed [ none ↦ pos 0 | some n ↦ n ]

-- The search for the first cluster with the line, from index `idx`.
unfoldable pub find_cluster : ℕ → ℤ → ℕ → List (ℕ × ℕ) → Option ℕ
unfolding in_span
find_cluster tolerance line idx [] = none
find_cluster tolerance line idx (c ∷ cs) =
    if in_span tolerance line c then some idx else find_cluster tolerance line (suc idx) cs

-- The loop over the hunks.
unfoldable pub hits_hunk : Text → ℤ → Hunks → Bool
unfolding line_in_ranges
hits_hunk file line [] = false
hits_hunk file line ((path, ranges) ∷ hunks) =
    ((text_eq file path || ends_with file path || ends_with path file)
      && line_in_ranges line ranges 0)
    || hits_hunk file line hunks

-- The local variables of the loop over the rows.
pub record Lane : Type 0 where
  pub cluster_covered : List Bool
  pub cluster_uncertain : List Bool
  pub tp_relaxed : ℕ
  pub fp_relaxed : ℕ

-- The cases at the end of the loop's body.
unfoldable pub credit : Lane → Bool → Bool → Bool → Option ℕ → Bool → Lane
credit s true committed unsure cluster hunk = record s { fp_relaxed = s.fp_relaxed + 1 }
credit s false true unsure (some i) hunk = record s {
  cluster_covered = set s.cluster_covered i true;
  tp_relaxed = s.tp_relaxed + 1;
}
credit s false true unsure none true = record s { tp_relaxed = s.tp_relaxed + 1 }
credit s false true unsure none false = record s { fp_relaxed = s.fp_relaxed + 1 }
credit s false false true (some i) hunk = record s {
  cluster_uncertain = set s.cluster_uncertain i true;
}
credit s false false true none hunk = s
credit s false false false cluster hunk = s

abbrev pub count_false : List Bool → ℕ
count_false [] = 0
count_false (true ∷ bs) = count_false bs
count_false (false ∷ bs) = suc (count_false bs)

-- The loop over the indices: the clusters that are not covered, but uncertain.
unfoldable pub count_credits : List Bool → List Bool → ℕ
count_credits [] us = 0
count_credits (c ∷ cs) [] = 0
count_credits (c ∷ cs) (u ∷ us) =
    let rest = count_credits cs us in if not c && u then suc rest else rest

pub record RelaxedScore : Type 0 where
  pub tp_relaxed : ℕ
  pub fp_relaxed : ℕ
  pub fn_relaxed : ℕ
  pub tp_uncertain_relaxed : ℕ
  pub fp_uncertain_relaxed : ℕ
  pub fn_uncertain_relaxed : ℕ
  pub n_gt_clusters : ℕ
  pub n_uncertain_credits : ℕ

-- `in_cluster_idx`
unfoldable pub cluster_of : Text → List (ℕ × ℕ) → ℕ → TriageRow → Option ℕ
unfolding find_cluster
cluster_of vuln_file clusters tolerance row =
    if not (is_empty vuln_file)
      && path_matches row.file vuln_file
      && not (eq_ℤ (line_of row) (pos 0))
    then find_cluster tolerance (line_of row) 0 clusters
    else none

-- `in_hunk`
unfoldable pub in_hunk : Hunks → TriageRow → Bool
unfolding hits_hunk
in_hunk hunks row =
    not (eq_ℤ (line_of row) (pos 0))
    && not (is_empty row.file)
    && hits_hunk row.file (line_of row) hunks

module _ (vuln_file : Text) (clusters : List (ℕ × ℕ)) (hunks : Hunks) (tolerance : ℕ) where
  -- The body of the loop.
  unfoldable pub score_row : Lane → AlignedRow → Lane
  unfolding credit is_committed_tp is_hallucinated_fp cluster_of in_hunk
  score_row s row =
      if row.patched
      then s
      else credit s (is_hallucinated_fp row.label row.triage.verdict row.triage.source_in_snippet)
          (is_committed_tp row.label row.triage.verdict row.triage.source_in_snippet)
          (text_eq row.triage.verdict (codes "uncertain"))
          (cluster_of vuln_file clusters tolerance row.triage) (in_hunk hunks row.triage)

  unfoldable pub score_rows : Lane → List AlignedRow → Lane
  score_rows s [] = s
  score_rows s (row ∷ rows) = score_rows (score_row s row) rows

-- What follows the loop, for `n` clusters. `fn_relaxed - uncertain_credits` is a difference of Python's integers;
-- here it would stop at 0.
unfoldable pub finish_lane : ℕ → Lane → RelaxedScore
unfolding count_credits
finish_lane n s =
    let credits = count_credits s.cluster_covered s.cluster_uncertain in
    let fn = count_false s.cluster_covered in
    record {
      tp_relaxed = s.tp_relaxed;
      fp_relaxed = s.fp_relaxed;
      fn_relaxed = fn;
      tp_uncertain_relaxed = s.tp_relaxed + credits;
      fp_uncertain_relaxed = s.fp_relaxed;
      fn_uncertain_relaxed = fn - credits;
      n_gt_clusters = n;
      n_uncertain_credits = credits;
    }

-- The variables before the loop.
abbrev pub no_lane : ℕ → Lane
no_lane n = record {
  cluster_covered = replicate n false;
  cluster_uncertain = replicate n false;
  tp_relaxed = 0;
  fp_relaxed = 0;
}

-- `_relaxed_score_for_iter`
unfoldable pub relaxed_score_for_iter : List AlignedRow → CveRecord → Hunks → ℕ → ℕ → RelaxedScore
unfolding score_rows finish_lane
relaxed_score_for_iter rows truth hunks tolerance gap =
    let clusters = cluster_lines (map some truth.vulnerable_lines) gap in
    finish_lane (length clusters)
      (score_rows truth.vulnerable_file clusters hunks tolerance (no_lane (length clusters)) rows)
