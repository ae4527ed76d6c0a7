-- ===== src/Audit/Misses.antt =====
-- The rows of the audit on false positives and on missed lines: `rows_on_gt_line`,
-- `nearest_row_to_gt_line`, `classify_fp`, `make_fp_rows`, `classify_fn_cause` and `make_fn_rows`. The
-- fields that are copied from the saved results as they are, or only cut for the table, are left out.
pub mod Causes
pub mod Nearest
use audit_zoo_bug_byters.Base.{
  ℕ, suc, zero, Bool, true, false, not, ◌&&◌, ◌||◌, Option, none, some, List, [], ◌∷◌, ◌++◌, ℤ,
  dist, leb, ltb, Text, codes, text_eq, is_empty, or_text, starts_with, contains, path_matches, map,
  if◌then◌else◌,
}
use audit_zoo_bug_byters.Audit.Rows.{TriageRow, CveRecord, AlignedRow, is_false}

-- The distance of a row from a line, where the row is in the vulnerable file and has a line.
unfoldable pub distance_to : Text → ℤ → AlignedRow → Option ℕ
distance_to vuln_file line row =
    if path_matches row.triage.file vuln_file
    then elim row.triage.line.parsed [ none ↦ none | some n ↦ some (dist n line) ]
    else none

abbrev pub within : ℕ → Option ℕ → Bool
within tolerance none = false
within tolerance (some d) = leb d tolerance

-- `rows_on_gt_line`
unfoldable pub rows_on_gt_line : ℕ → Text → ℤ → List AlignedRow → List AlignedRow
unfolding distance_to
rows_on_gt_line tolerance vuln_file line [] = []
rows_on_gt_line tolerance vuln_file line (row ∷ rows) =
    let rest = rows_on_gt_line tolerance vuln_file line rows in
    if within tolerance (distance_to vuln_file line row) then row ∷ rest else rest

abbrev pub add_candidate : Option ℕ → AlignedRow → List (ℕ × AlignedRow) → List (ℕ × AlignedRow)
add_candidate none row cs = cs
add_candidate (some d) row cs = (d, row) ∷ cs

-- The candidates with their distances.
unfoldable pub candidates : Text → ℤ → List AlignedRow → List (ℕ × AlignedRow)
unfolding distance_to
candidates vuln_file line [] = []
candidates vuln_file line (row ∷ rows) =
    add_candidate (distance_to vuln_file line row) row (candidates vuln_file line rows)

unfoldable pub closer : ℕ × AlignedRow → ℕ × AlignedRow → ℕ × AlignedRow
closer best c = if ltb c.0 best.0 then c else best

-- `min` with the distance as its key: the first of the nearest, from the best so far.
unfoldable pub nearest_from : ℕ × AlignedRow → List (ℕ × AlignedRow) → ℕ × AlignedRow
unfolding closer
nearest_from best [] = best
nearest_from best (c ∷ cs) = nearest_from (closer best c) cs

abbrev pub nearest_of : List (ℕ × AlignedRow) → Option (ℕ × AlignedRow)
nearest_of [] = none
nearest_of (c ∷ cs) = some (nearest_from c cs)

-- `nearest_row_to_gt_line`, with the distance of the row.
unfoldable pub nearest_row_to_gt_line : Text → ℤ → List AlignedRow → Option (ℕ × AlignedRow)
unfolding candidates nearest_from
nearest_row_to_gt_line vuln_file line rows = nearest_of (candidates vuln_file line rows)

-- `classify_fp`
unfoldable pub classify_fp : AlignedRow → Text
classify_fp row =
    let label = row.label in
    let verdict = row.triage.verdict in
    if row.patched
    then codes "patched_commit_alert"
    else if text_eq label (codes "fp_by_hallucinated_source")
        || is_false row.triage.source_in_snippet
    then codes "evidence_hallucination"
    else if text_eq label (codes "fp_by_llm_overclaim") || text_eq verdict (codes "true_positive")
    then codes "triager_overclaim"
    else if text_eq label (codes "uncertain_on_gt") || text_eq label (codes "uncertain_off_gt")
    then codes "uncertain_unscored"
    else if text_eq label (codes "fp_by_location")
    then codes "scanner_location_fp"
    else if is_empty label && text_eq verdict (codes "uncertain")
    then codes "scanner_location_fp"
    else if starts_with label (codes "fp_")
    then label
    else []

-- What `make_fp_rows` computes of an `AuditFindingRow`.
pub record FpRow : Type 0 where
  pub patched : Bool
  pub finding_index : ℕ
  pub label : Text
  pub fp_cause : Text
  pub matched_line : Option ℤ

-- The body of the loop of `make_fp_rows`, for a row that is not passed over.
unfoldable pub fp_row : AlignedRow → FpRow
unfolding classify_fp
fp_row row = record {
  patched = row.patched;
  finding_index = row.finding_index;
  label = if row.patched then or_text row.label (codes "patched_commit_alert") else row.label;
  fp_cause = classify_fp row;
  matched_line = row.matched_gt_line;
}

-- `make_fp_rows`
unfoldable pub make_fp_rows : List AlignedRow → List FpRow
unfolding fp_row
make_fp_rows [] = []
make_fp_rows (row ∷ rows) =
    let rest = make_fp_rows rows in
    if not row.patched && not (starts_with row.label (codes "fp_")) then rest else fp_row row ∷ rest

abbrev label_texts : List AlignedRow → List Text
label_texts rows = map (λ r. r.label) rows

abbrev verdict_texts : List AlignedRow → List Text
verdict_texts rows = map (λ r. r.triage.verdict) rows

-- `classify_fn_cause`, where `failed` is `cve_result.get("skipped") or arm_entry.get("arm_error_type")`
unfoldable pub classify_fn_cause : Bool → List AlignedRow → Text
classify_fn_cause failed rows =
    if failed
    then codes "arm_error_or_timeout"
    else if contains (label_texts rows) (codes "fn_by_llm")
        || contains (verdict_texts rows) (codes "false_positive")
    then codes "triager_suppressed_gt"
    else if contains (label_texts rows) (codes "fp_by_hallucinated_source")
    then codes "hallucinated_source_on_gt"
    else codes "joern_candidate_missing"

-- What `make_fn_rows` computes of a `MissedGroundTruthRow`. `none` is the line of a CVE without
-- lines.
pub record FnRow : Type 0 where
  pub vulnerable_line : Option ℤ
  pub fn_cause : Text
  pub nearest : Option (ℕ × AlignedRow)

module _ (failed : Bool) (tolerance : ℕ) (vuln_file : Text) (rows : List AlignedRow) where
  -- `any(label == "tp" for row in matching_rows)`
  unfoldable pub is_detected : ℤ → Bool
  unfolding rows_on_gt_line
  is_detected line =
      contains (label_texts (rows_on_gt_line tolerance vuln_file line rows)) (codes "tp")

  -- The loop of `make_fn_rows` over the vulnerable lines.
  unfoldable pub fn_rows_for : List ℤ → List FnRow
  unfolding rows_on_gt_line nearest_row_to_gt_line classify_fn_cause is_detected
  fn_rows_for [] = []
  fn_rows_for (line ∷ lines) =
      let rest = fn_rows_for lines in
      if is_detected line
      then rest
      else record {
        vulnerable_line = some line;
        fn_cause = classify_fn_cause failed (rows_on_gt_line tolerance vuln_file line rows);
        nearest = nearest_row_to_gt_line vuln_file line rows;
      }
        ∷ rest

-- `make_fn_rows`
unfoldable pub make_fn_rows : Bool → ℕ → CveRecord → List AlignedRow → List FnRow
unfolding fn_rows_for
make_fn_rows failed tolerance truth rows =
    if is_empty truth.vulnerable_lines
    then record { vulnerable_line = none; fn_cause = codes "empty_ground_truth"; nearest = none }
      ∷ []
    else fn_rows_for failed tolerance truth.vulnerable_file rows truth.vulnerable_lines
