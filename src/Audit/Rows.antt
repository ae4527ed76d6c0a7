-- ===== src/Audit/Rows.antt =====
-- The saved rows that the audit reads: scorer labels joined with triage verdicts.
-- `matched_gt_line`, `build_aligned_rows`, `_committed_tp_predicate` and `_is_hallucinated_fp`.
use audit_zoo_bug_byters.Base.{
  ℕ, suc, Bool, true, false, not, ◌&&◌, ◌||◌, Option, none, some, List, [], ◌∷◌, ℤ, dist, leb, Text,
  codes, text_eq, is_empty, path_matches, if◌then◌else◌,
}
use audit_zoo_bug_byters.Schemas.{JsonLine}

-- One saved triage row, a JSON object: texts after `str`, with "" where the key is missing.
-- `source_in_snippet` is the JSON value: `some b` is a boolean, `none` is missing or another value.
pub record TriageRow : Type 0 where
  pub file : Text
  pub line : JsonLine
  pub verdict : Text
  pub source_in_snippet : Option Bool
  pub recovery_kind : Text
  pub reasoning : Text

-- The dataset's record of a CVE, under the keys that the audit reads.
pub record CveRecord : Type 0 where
  pub vulnerable_file : Text
  pub vulnerable_lines : List ℤ

-- One entry of `build_aligned_rows`.
pub record AlignedRow : Type 0 where
  pub patched : Bool
  pub finding_index : ℕ
  pub label : Text
  pub triage : TriageRow
  pub matched_gt_line : Option ℤ

-- The loop of `matched_gt_line`.
unfoldable pub first_line_near : ℕ → ℤ → List ℤ → Option ℤ
first_line_near tolerance line [] = none
first_line_near tolerance line (v ∷ vs) =
    if leb (dist line v) tolerance then some v else first_line_near tolerance line vs

-- `matched_gt_line`; an `int` that raises gives `None`.
unfoldable pub matched_gt_line : TriageRow → CveRecord → ℕ → Option ℤ
unfolding first_line_near
matched_gt_line row truth tolerance =
    if is_empty truth.vulnerable_file || is_empty truth.vulnerable_lines
    then none
    else if path_matches row.file truth.vulnerable_file
    then elim row.line.parsed [
      | none ↦ none
      | some line ↦ first_line_near tolerance line truth.vulnerable_lines
    ]
    else none

-- `labels[idx] if idx < len(labels) else ""`, and the labels that are left.
abbrev pub next_label : List Text → Text × List Text
next_label [] = ([], [])
next_label (l ∷ ls) = (l, ls)

-- The loop of `build_aligned_rows`, from index `idx`, for the labels from there on.
unfoldable pub align_from : Bool → CveRecord → ℕ → ℕ → List Text → List TriageRow → List AlignedRow
unfolding matched_gt_line
align_from patched truth tolerance idx labels [] = []
align_from patched truth tolerance idx labels (row ∷ rows) =
    record {
      patched = patched;
      finding_index = idx;
      label = (next_label labels).0;
      triage = row;
      matched_gt_line = matched_gt_line row truth tolerance;
    }
    ∷ align_from patched truth tolerance (suc idx) (next_label labels).1 rows

-- `build_aligned_rows`
unfoldable pub build_aligned_rows :
    Bool → List Text → List TriageRow → CveRecord → ℕ → List AlignedRow
unfolding align_from
build_aligned_rows patched labels rows truth tolerance =
    align_from patched truth tolerance 0 labels rows

abbrev pub is_false : Option Bool → Bool
is_false (some false) = true
is_false (some true) = false
is_false none = false

-- `_committed_tp_predicate`
unfoldable pub is_committed_tp : Text → Text → Option Bool → Bool
is_committed_tp label verdict source =
    if text_eq label (codes "tp")
    then true
    else if text_eq label (codes "fp_by_llm_overclaim")
    then true
    else if not (is_empty label)
    then false
    else if not (text_eq verdict (codes "true_positive"))
    then false
    else not (is_false source)

-- `_is_hallucinated_fp`
unfoldable pub is_hallucinated_fp : Text → Text → Option Bool → Bool
is_hallucinated_fp label verdict source =
    if text_eq label (codes "fp_by_hallucinated_source")
    then true
    else if not (is_empty label)
    then false
    else text_eq verdict (codes "true_positive") && is_false source
