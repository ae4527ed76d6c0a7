-- ===== src/Reruns.antt =====
-- splitEvaluations/pick_rerun_targets.py and splitEvaluations/merge_semgrep_runs.py: which CVEs of a
-- sweep are run again, and how the rows of the second run are merged over the first. Reading and
-- writing of the files is left out.
pub mod Complete
use audit_zoo_bug_byters.Base.{
  ℕ, suc, zero, Bool, true, false, not, ◌&&◌, ◌||◌, Option, none, some, List, [], ◌∷◌, ◌++◌, Text,
  codes, text_eq, is_empty, contains, length, if◌then◌else◌,
}

-- A row of `results.json` under the keys that are read: "" where a text is missing, and whether
-- `arms` is a dict. `body` stands for the rest of the row. A row whose
-- identifier is null is left out.
pub record ResultRow : Type 0 where
  pub cve_id : Text
  pub skipped : Text
  pub has_arms : Bool
  pub body : Text

-- `[str(row["cve_id"]) for row in results if row.get("cve_id") and row.get("skipped") == "timeout"]`
unfoldable pub timeout_cves : List ResultRow → List Text
timeout_cves [] = []
timeout_cves (row ∷ rows) =
    let rest = timeout_cves rows in
    if not (is_empty row.cve_id) && text_eq row.skipped (codes "timeout")
    then row.cve_id ∷ rest
    else rest

-- The set `seen`, or `prior_seen`: the identifiers that are not empty.
unfoldable pub seen_cves : List ResultRow → List Text
seen_cves [] = []
seen_cves (row ∷ rows) =
    let rest = seen_cves rows in if is_empty row.cve_id then rest else row.cve_id ∷ rest

-- The CVEs of a list for which a test holds, in order.
unfoldable pub keep_if : (Text → Bool) → List Text → List Text
keep_if test [] = []
keep_if test (cve ∷ cves) = let rest = keep_if test cves in if test cve then cve ∷ rest else rest

-- `missing_cves`
unfoldable pub missing_cves : List Text → List ResultRow → List Text
unfolding keep_if
missing_cves validation results = keep_if (λ cve. not (contains (seen_cves results) cve)) validation

-- The entry `targets` of `pick_targets`.
unfoldable pub pick_targets : List Text → List ResultRow → List Text
unfolding keep_if
pick_targets validation results =
    keep_if
      (λ cve. contains (timeout_cves results) cve || contains (missing_cves validation results) cve)
      validation

abbrev later_row : Option ResultRow → Option ResultRow → Option ResultRow
later_row (some r) earlier = some r
later_row none earlier = earlier

-- `rerun_by_cve.get(cve_id)`, for an identifier that is not empty: the last row with it.
unfoldable pub rerun_for : List ResultRow → Text → Option ResultRow
rerun_for [] cve_id = none
rerun_for (row ∷ rows) cve_id =
    later_row (rerun_for rows cve_id)
      (if not (is_empty row.cve_id) && text_eq row.cve_id cve_id then some row else none)

abbrev or_row : Option ResultRow → ResultRow → ResultRow
or_row none row = row
or_row (some r) row = r

-- The row that the first loop of `merge_results` appends.
unfoldable pub replace_row : List ResultRow → ResultRow → ResultRow
unfolding rerun_for
replace_row reruns row =
    if is_empty row.cve_id then row else or_row (rerun_for reruns row.cve_id) row

unfoldable pub replace_rows : List ResultRow → List ResultRow → List ResultRow
unfolding replace_row
replace_rows reruns [] = []
replace_rows reruns (row ∷ rows) = replace_row reruns row ∷ replace_rows reruns rows

-- The rows that the second loop appends.
unfoldable pub new_rows : List Text → List ResultRow → List ResultRow
new_rows prior_seen [] = []
new_rows prior_seen (row ∷ rows) =
    let rest = new_rows prior_seen rows in
    if not (is_empty row.cve_id) && not (contains prior_seen row.cve_id) then row ∷ rest else rest

-- The merged rows of `merge_results`.
unfoldable pub merge_results : List ResultRow → List ResultRow → List ResultRow
unfolding replace_rows new_rows seen_cves
merge_results prior reruns = replace_rows reruns prior ++ new_rows (seen_cves prior) reruns
