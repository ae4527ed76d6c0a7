-- ===== src/Tests/Audits.antt =====
-- Runs of the audit.
use mathlib.Core.List.{Perm}
use audit_zoo_bug_byters.Base.{
  ℕ, ◌+◌, ◌≤◌, ◌≡◌, refl, true, false, Option, none, some, List, [], ◌∷◌, ℤ, pos, negsuc, codes,
  length, map, text_eq, All,
}
use audit_zoo_bug_byters.Audit.Clusters.{sanitize_lines, cluster_lines}
use audit_zoo_bug_byters.Audit.Clusters.Chains.{
  IsClustering, IsSortedFrom, cluster_lines-IsClustering,
}
use audit_zoo_bug_byters.Audit.Rows.{
  TriageRow, CveRecord, AlignedRow, build_aligned_rows, is_hallucinated_fp,
}
use audit_zoo_bug_byters.Audit.Relaxed.{Hunks, relaxed_score_for_iter, count_false}
use audit_zoo_bug_byters.Audit.Relaxed.Counts.{count_scored, relaxed_score_for_iter-counts}
use audit_zoo_bug_byters.Audit.Relaxed.Covered.Rule.{
  count_untouched, fn_relaxed-relaxed_score_for_iter,
}
use audit_zoo_bug_byters.Audit.Relaxed.Covered.{values_from, covered}
use audit_zoo_bug_byters.Audit.Misses.{make_fn_rows}
use audit_zoo_bug_byters.Audit.Misses.Nearest.{IsTold, count_undetected, make_fn_rows-IsTold}

abbrev some_values : List (Option ℤ)
some_values = some (pos 40) ∷ none ∷ some (negsuc 2) ∷ some (pos 12) ∷ some (pos 10) ∷ []

cluster_lines-IsClustering_example :
    (lines : List ℕ) × Perm lines (sanitize_lines some_values)
    × IsSortedFrom 0 lines
    × IsClustering 5 lines (cluster_lines some_values 5)
cluster_lines-IsClustering_example = cluster_lines-IsClustering some_values 5

abbrev truth : CveRecord
truth = record { vulnerable_file = codes "run.py"; vulnerable_lines = pos 10 ∷ pos 40 ∷ [] }

abbrev hit_row : TriageRow
hit_row = record {
  file = codes "pkg/run.py";
  line = record { shown = codes "12"; parsed = some (pos 12) };
  verdict = codes "true_positive";
  source_in_snippet = some true;
  recovery_kind = codes "taint";
  reasoning = [];
}

abbrev rows : List AlignedRow
rows = build_aligned_rows false (codes "tp" ∷ []) (hit_row ∷ hit_row ∷ []) truth 5

abbrev hunks : Hunks
hunks = (codes "run.py", (10, 12) ∷ []) ∷ []

relaxed_score_for_iter-counts_example :
    let r = relaxed_score_for_iter rows truth hunks 5 3 in
    (r.tp_relaxed + r.fp_relaxed ≡ count_scored rows)
    × (r.fn_relaxed ≤ r.n_gt_clusters)
    × (r.n_gt_clusters ≤ r.tp_relaxed + r.fn_relaxed)
    × (r.fn_uncertain_relaxed + r.n_uncertain_credits ≡ r.fn_relaxed)
    × (r.tp_uncertain_relaxed + r.fn_uncertain_relaxed ≡ r.tp_relaxed + r.fn_relaxed)
    × (r.fp_uncertain_relaxed ≡ r.fp_relaxed)
relaxed_score_for_iter-counts_example = relaxed_score_for_iter-counts rows truth hunks 5 3

-- Two clusters of lines, and a row that is near both.
abbrev two_clusters : CveRecord
two_clusters = record truth { vulnerable_lines = pos 10 ∷ pos 19 ∷ [] }

abbrev between_row : TriageRow
between_row = record hit_row { line = record { shown = codes "14"; parsed = some (pos 14) } }

abbrev between : List AlignedRow
between = build_aligned_rows false (codes "tp" ∷ []) (between_row ∷ []) two_clusters 5

fn_relaxed-relaxed_score_for_iter_example :
    let clusters = cluster_lines (map some two_clusters.vulnerable_lines) 8 in
    let missed = (relaxed_score_for_iter between two_clusters hunks 5 8).fn_relaxed in
    (missed
      ≡ count_false (
          values_from
            (covered two_clusters.vulnerable_file clusters 5 between)
            0
            (length clusters)))
    × (count_untouched two_clusters.vulnerable_file 5 between clusters ≤ missed)
fn_relaxed-relaxed_score_for_iter_example =
    fn_relaxed-relaxed_score_for_iter between two_clusters hunks 5 8

invented : is_hallucinated_fp [] (codes "true_positive") (some false) ≡ true
unfolding is_hallucinated_fp text_eq
invented = refl

abbrev suppressed : List AlignedRow
suppressed =
    build_aligned_rows false (codes "fp_by_llm_overclaim" ∷ codes "fn_by_llm" ∷ [])
      (hit_row ∷ hit_row ∷ []) truth 5

make_fn_rows-IsTold_example :
    (length (make_fn_rows false 5 truth suppressed)
      ≡ count_undetected false 5 truth.vulnerable_file suppressed truth.vulnerable_lines)
    × All (IsTold false 5) (make_fn_rows false 5 truth suppressed)
make_fn_rows-IsTold_example = make_fn_rows-IsTold false 5 truth suppressed refl
