-- ===== src/Audit/Misses/Causes.antt =====
-- The false positives that `make_fp_rows` reports, and their causes.
use audit_zoo_bug_byters.Base.{
  ℕ, ◌+◌, ◌≡◌, refl, inl, inr, Bool, true, false, not, ◌&&◌, ◌||◌, List, [], ◌∷◌, Text, codes,
  is_empty, or_text, starts_with, All, length, Bool-cases, arith, if◌then◌else◌,
}
use audit_zoo_bug_byters.Audit.Rows.{AlignedRow}
use audit_zoo_bug_byters.Audit.Misses.{classify_fp, FpRow, fp_row, make_fp_rows}

starts_with-not_empty : (s : Text) → starts_with s (codes "fp_") ≡ true → is_empty s ≡ false
unfolding starts_with
starts_with-not_empty [] h = cc
starts_with-not_empty (c ∷ s) h = refl

-- A row that is reported as a false positive.
abbrev pub is_reported : AlignedRow → Bool
is_reported row = row.patched || starts_with row.label (codes "fp_")

is_empty-classify_fp :
    (row : AlignedRow) → is_reported row ≡ true → is_empty (classify_fp row) ≡ false
unfolding classify_fp
is_empty-classify_fp row h = elim (Bool-cases row.patched) [
  | inl fixed ↦ rw fixed
  | inr open_bug ↦
      let named : starts_with row.label (codes "fp_") ≡ true = ground arith in
      ground (arith, starts_with-not_empty row.label named)
]

is_empty-or_text : (s t : Text) → is_empty t ≡ false → is_empty (or_text s t) ≡ false
is_empty-or_text [] t h = h
is_empty-or_text (c ∷ s) t h = refl

-- What a reported row has.
abbrev pub IsExplained : FpRow → Type 0
IsExplained r = (is_empty r.fp_cause ≡ false) × (is_empty r.label ≡ false)

fp_row-IsExplained : (row : AlignedRow) → is_reported row ≡ true → IsExplained (fp_row row)
unfolding fp_row
fp_row-IsExplained row h = (
  is_empty-classify_fp row h,
  elim (Bool-cases row.patched) [
    | inl fixed ↦ rw fixed (is_empty-or_text row.label (codes "patched_commit_alert") refl)
    | inr open_bug ↦ rw open_bug (starts_with-not_empty row.label (ground arith))
  ],
)

abbrev pub count_reported : List AlignedRow → ℕ
count_reported [] = 0
count_reported (row ∷ rows) = (if is_reported row then 1 else 0) + count_reported rows

-- The false positives of the audit are as many as the rows of the patched side and the rows of the
-- vulnerable side whose label begins with `fp_`, and each has a cause and a label.
pub make_fp_rows-IsExplained :
    (rows : List AlignedRow)
    → (length (make_fp_rows rows) ≡ count_reported rows) × All IsExplained (make_fp_rows rows)
unfolding make_fp_rows
make_fp_rows-IsExplained [] = (refl, tt)
make_fp_rows-IsExplained (row ∷ rows) =
    let (count, rest) = make_fp_rows-IsExplained rows in
    elim (Bool-cases (not row.patched && not (starts_with row.label (codes "fp_")))) [
      | inl passed ↦ rw passed (ground (arith, count), rest)
      | inr kept ↦
          let h : is_reported row ≡ true = ground arith in
          rw (kept, h) (omega (arith, count), (fp_row-IsExplained row h, rest))
    ]
