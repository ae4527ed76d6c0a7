-- ===== src/Audit/Misses/Nearest.antt =====
-- The nearest row of a missed line, and what it says on the cause.
use audit_zoo_bug_byters.Base.{
  ℕ, ◌+◌, ◌≡◌, refl, sym, ap, ◌∙◌, inl, inr, Bool, true, false, not, ◌||◌, Option, none, some, List,
  [], ◌∷◌, ℤ, leb, ltb, Text, codes, is_empty, contains, All, length, Bool-cases, Option-cases,
  arith, if◌then◌else◌,
}
use audit_zoo_bug_byters.Audit.Rows.{CveRecord, AlignedRow}
use audit_zoo_bug_byters.Audit.Misses.{
  distance_to, rows_on_gt_line, candidates, closer, nearest_from, nearest_of,
  nearest_row_to_gt_line, classify_fn_cause, FnRow, is_detected, fn_rows_for, make_fn_rows,
}

abbrev any_within : ℕ → List (ℕ × AlignedRow) → Bool
any_within tolerance [] = false
any_within tolerance (c ∷ cs) = leb c.0 tolerance || any_within tolerance cs

is_empty-rows_on_gt_line :
    (tolerance : ℕ) (vuln_file : Text) (line : ℤ) (rows : List AlignedRow)
    → is_empty (rows_on_gt_line tolerance vuln_file line rows)
      ≡ not (any_within tolerance (candidates vuln_file line rows))
unfolding rows_on_gt_line candidates
is_empty-rows_on_gt_line tolerance vuln_file line [] = refl
is_empty-rows_on_gt_line tolerance vuln_file line (row ∷ rows) =
    let rest = is_empty-rows_on_gt_line tolerance vuln_file line rows in
    elim (Option-cases (distance_to vuln_file line row)) [
      | inl other ↦ rw other rest
      | inr (d, here) ↦
          rw here
            (elim (Bool-cases (leb d tolerance)) [ inl near ↦ rw near | inr far ↦ rw far rest ])
    ]

leb-closer :
    (tolerance : ℕ) (best c : ℕ × AlignedRow)
    → leb (closer best c).0 tolerance ≡ (leb best.0 tolerance || leb c.0 tolerance)
unfolding closer
leb-closer tolerance best c = elim (Bool-cases (ltb c.0 best.0)) [
  | inl nearer ↦ rw nearer (ground arith)
  | inr farther ↦ rw farther (ground arith)
]

leb-nearest_from :
    (tolerance : ℕ) (best : ℕ × AlignedRow) (cs : List (ℕ × AlignedRow))
    → leb (nearest_from best cs).0 tolerance ≡ (leb best.0 tolerance || any_within tolerance cs)
unfolding nearest_from
leb-nearest_from tolerance best [] = ground arith
leb-nearest_from tolerance best (c ∷ cs) =
    let first = leb-closer tolerance best c in
    leb-nearest_from tolerance (closer best c) cs ∙ ground (arith, first)

-- The nearest row, if there is one, is within the tolerance.
abbrev pub is_near : ℕ → Option (ℕ × AlignedRow) → Bool
is_near tolerance none = false
is_near tolerance (some c) = leb c.0 tolerance

is_near-nearest_of :
    (tolerance : ℕ) (cs : List (ℕ × AlignedRow))
    → is_near tolerance (nearest_of cs) ≡ any_within tolerance cs
is_near-nearest_of tolerance [] = refl
is_near-nearest_of tolerance (c ∷ cs) = leb-nearest_from tolerance c cs

-- Some row is on a vulnerable line exactly if the nearest row is within the tolerance.
pub is_empty-nearest_row_to_gt_line :
    (tolerance : ℕ) (vuln_file : Text) (line : ℤ) (rows : List AlignedRow)
    → is_empty (rows_on_gt_line tolerance vuln_file line rows)
      ≡ not (is_near tolerance (nearest_row_to_gt_line vuln_file line rows))
unfolding nearest_row_to_gt_line
is_empty-nearest_row_to_gt_line tolerance vuln_file line rows =
    is_empty-rows_on_gt_line tolerance vuln_file line rows
    ∙ ap not (sym (is_near-nearest_of tolerance (candidates vuln_file line rows)))

-- What a missed line of a CVE with lines says: where its nearest row is beyond the tolerance, or there
-- is none, the arm failed or found no candidate.
abbrev pub IsTold : Bool → ℕ → FnRow → Type 0
IsTold failed tolerance r =
    is_near tolerance r.nearest ≡ false
    → r.fn_cause
      ≡ (if failed then codes "arm_error_or_timeout" else codes "joern_candidate_missing")

classify_fn_cause-empty :
    (failed : Bool) (rows : List AlignedRow)
    → is_empty rows ≡ true
    → classify_fn_cause failed rows
      ≡ (if failed then codes "arm_error_or_timeout" else codes "joern_candidate_missing")
unfolding classify_fn_cause contains
classify_fn_cause-empty failed [] h = refl
classify_fn_cause-empty failed (row ∷ rows) h = cc

module _ (failed : Bool) (tolerance : ℕ) (vuln_file : Text) (rows : List AlignedRow) where
  abbrev pub count_undetected : List ℤ → ℕ
  count_undetected [] = 0
  count_undetected (line ∷ lines) =
      (if is_detected failed tolerance vuln_file rows line then 0 else 1) + count_undetected lines

  fn_rows_for-IsTold :
      (lines : List ℤ)
      → (length (fn_rows_for failed tolerance vuln_file rows lines) ≡ count_undetected lines)
        × All (IsTold failed tolerance) (fn_rows_for failed tolerance vuln_file rows lines)
  unfolding fn_rows_for
  fn_rows_for-IsTold [] = (refl, tt)
  fn_rows_for-IsTold (line ∷ lines) =
      let (count, told) = fn_rows_for-IsTold lines in
      let none_on = is_empty-nearest_row_to_gt_line tolerance vuln_file line rows in
      elim (Bool-cases (is_detected failed tolerance vuln_file rows line)) [
        | inl found ↦ rw found (ground (arith, count), told)
        | inr missed ↦ rw missed (
          omega (arith, count),
          (λ h. classify_fn_cause-empty failed _ (none_on ∙ ap not h), told),
        )
      ]

-- For a CVE with vulnerable lines, the missed lines of the audit are as many as the lines on which no
-- row is labelled `tp`, and a missed line whose nearest row is beyond the tolerance, or that has none,
-- is put down to a failure of the arm, if there was one, and else to a missing candidate.
pub make_fn_rows-IsTold :
    (failed : Bool) (tolerance : ℕ) (truth : CveRecord) (rows : List AlignedRow)
    → is_empty truth.vulnerable_lines ≡ false
    → (length (make_fn_rows failed tolerance truth rows)
        ≡ count_undetected failed tolerance truth.vulnerable_file rows truth.vulnerable_lines)
      × All (IsTold failed tolerance) (make_fn_rows failed tolerance truth rows)
unfolding make_fn_rows
make_fn_rows-IsTold failed tolerance truth rows h =
    rw h (fn_rows_for-IsTold failed tolerance truth.vulnerable_file rows truth.vulnerable_lines)
