-- ===== src/Tests/SecondRuns.antt =====
-- Runs of the merging of a second sweep.
use audit_zoo_bug_byters.Base.{◌≡◌, refl, true, List, [], ◌∷◌, Text, codes, text_eq, contains, All}
use audit_zoo_bug_byters.Reruns.{
  ResultRow, timeout_cves, seen_cves, keep_if, missing_cves, pick_targets, merge_results,
}
use audit_zoo_bug_byters.Reruns.Complete.{cve_ids, merge_results-pick_targets}

abbrev row_for : Text → Text → ResultRow
row_for cve_id skipped = record { cve_id = cve_id; skipped = skipped; has_arms = true; body = [] }

-- The second CVE ran out of time, and the third has no row.
abbrev first_run : List ResultRow
first_run = row_for (codes "a") [] ∷ row_for (codes "b") (codes "timeout") ∷ []

abbrev second_run : List ResultRow
second_run = row_for (codes "b") [] ∷ row_for (codes "c") [] ∷ []

abbrev validation : List Text
validation = codes "a" ∷ codes "b" ∷ codes "c" ∷ []

second_run-covers :
    All (λ t. contains (cve_ids second_run) t ≡ true) (pick_targets validation first_run)
unfolding pick_targets keep_if timeout_cves missing_cves seen_cves contains text_eq
second_run-covers = (refl, (refl, tt))

c_listed : contains validation (codes "c") ≡ true
unfolding contains text_eq
c_listed = refl

merge_results-pick_targets_example :
    contains (cve_ids (merge_results first_run second_run)) (codes "c") ≡ true
merge_results-pick_targets_example =
    merge_results-pick_targets validation first_run second_run second_run-covers (codes "c") refl
      c_listed
