-- ===== src/Reruns/Complete.antt =====
-- The CVEs of the validation set after a second run of the targets.
use audit_zoo_bug_byters.Base.{
  ◌≡◌, refl, ap, ◌∙◌, inl, inr, Bool, true, false, not, ◌&&◌, Option, none, some, List, [], ◌∷◌,
  ◌++◌, Text, text_eq, is_empty, contains, All, map, Bool-cases, arith,
}
use audit_zoo_bug_byters.Base.Strings.Laws.{text_eq_sound, contains-append}
use audit_zoo_bug_byters.Reruns.{
  ResultRow, seen_cves, keep_if, missing_cves, pick_targets, later_row, rerun_for, or_row,
  replace_row, replace_rows, new_rows, merge_results,
}

abbrev pub cve_ids : List ResultRow → List Text
cve_ids rows = map (λ r. r.cve_id) rows

-- A row replaced is a row with the same identifier.
IsFor : Text → Option ResultRow → Type 0
IsFor cve_id none = Unit
IsFor cve_id (some row) = row.cve_id ≡ cve_id

later_row-IsFor :
    (cve_id : Text) (later earlier : Option ResultRow)
    → IsFor cve_id later
    → IsFor cve_id earlier
    → IsFor cve_id (later_row later earlier)
unfolding IsFor
later_row-IsFor cve_id (some r) earlier h k = h
later_row-IsFor cve_id none earlier h k = k

rerun_for-IsFor : (reruns : List ResultRow) (cve_id : Text) → IsFor cve_id (rerun_for reruns cve_id)
unfolding IsFor rerun_for
rerun_for-IsFor [] cve_id = tt
rerun_for-IsFor (row ∷ rows) cve_id =
    later_row-IsFor cve_id (rerun_for rows cve_id) _ (rerun_for-IsFor rows cve_id)
      (elim (Bool-cases (not (is_empty row.cve_id) && text_eq row.cve_id cve_id)) [
        | inl same ↦ rw same (text_eq_sound row.cve_id cve_id (ground arith))
        | inr other ↦ rw other tt
      ])

or_row-cve_id :
    (o : Option ResultRow) (row : ResultRow)
    → IsFor row.cve_id o
    → (or_row o row).cve_id ≡ row.cve_id
unfolding IsFor
or_row-cve_id none row h = refl
or_row-cve_id (some r) row h = h

replace_row-cve_id :
    (reruns : List ResultRow) (row : ResultRow) → (replace_row reruns row).cve_id ≡ row.cve_id
unfolding replace_row
replace_row-cve_id reruns row = elim (Bool-cases (is_empty row.cve_id)) [
  | inl nameless ↦ rw nameless
  | inr named ↦
      rw named (or_row-cve_id (rerun_for reruns row.cve_id) row (rerun_for-IsFor reruns row.cve_id))
]

cve_ids-replace_rows :
    (reruns prior : List ResultRow) → cve_ids (replace_rows reruns prior) ≡ cve_ids prior
unfolding replace_rows
cve_ids-replace_rows reruns [] = refl
cve_ids-replace_rows reruns (row ∷ rows) =
    rw (replace_row-cve_id reruns row, cve_ids-replace_rows reruns rows)

cve_ids-append : (xs ys : List ResultRow) → cve_ids (xs ++ ys) ≡ cve_ids xs ++ cve_ids ys
cve_ids-append [] ys = refl
cve_ids-append (x ∷ xs) ys = ap (λ l. x.cve_id ∷ l) (cve_ids-append xs ys)

cve_ids-new_rows :
    (seen : List Text) (rows : List ResultRow)
    → cve_ids (new_rows seen rows)
      ≡ keep_if (λ cve. not (is_empty cve) && not (contains seen cve)) (cve_ids rows)
unfolding new_rows keep_if
cve_ids-new_rows seen [] = refl
cve_ids-new_rows seen (row ∷ rows) =
    elim (Bool-cases (not (is_empty row.cve_id) && not (contains seen row.cve_id))) [
      | inl new ↦ rw new (ap (λ l. row.cve_id ∷ l) (cve_ids-new_rows seen rows))
      | inr old ↦ rw old (cve_ids-new_rows seen rows)
    ]

-- The identifiers of the merged rows are those of the first run in its order, and behind them those of
-- the second run that the first had not.
pub cve_ids-merge_results :
    (prior reruns : List ResultRow)
    → cve_ids (merge_results prior reruns)
      ≡ cve_ids prior
        ++ keep_if
            (λ cve. not (is_empty cve) && not (contains (seen_cves prior) cve))
            (cve_ids reruns)
unfolding merge_results
cve_ids-merge_results prior reruns =
    cve_ids-append (replace_rows reruns prior) (new_rows (seen_cves prior) reruns)
    ∙ rw (cve_ids-replace_rows reruns prior, cve_ids-new_rows (seen_cves prior) reruns)

contains-keep_if :
    (test : Text → Bool) (xs : List Text) (x : Text)
    → contains (keep_if test xs) x ≡ (contains xs x && test x)
unfolding keep_if contains
contains-keep_if test [] x = refl
contains-keep_if test (y ∷ ys) x = elim (Bool-cases (text_eq y x)) [
  | inl same ↦ ground (arith, contains-keep_if test ys x, ap test (text_eq_sound y x same))
  | inr apart ↦ ground (arith, contains-keep_if test ys x)
]

contains-seen_cves :
    (rows : List ResultRow) (x : Text)
    → contains (seen_cves rows) x ≡ true
    → contains (cve_ids rows) x ≡ true
unfolding seen_cves contains
contains-seen_cves [] x h = h
contains-seen_cves (row ∷ rows) x h = elim (Bool-cases (contains (seen_cves rows) x)) [
  | inl later ↦ ground (arith, contains-seen_cves rows x later)
  | inr absent ↦ ground arith
]

All-contains :
    (xs ys : List Text) (x : Text)
    → All (λ t. contains ys t ≡ true) xs
    → contains xs x ≡ true
    → contains ys x ≡ true
All-contains [] ys x a h = unfold contains in cc
All-contains (t ∷ xs) ys x (here, a) h = elim (Bool-cases (text_eq t x)) [
  | inl same ↦ rw (text_eq_sound t x same) at here
  | inr apart ↦ All-contains xs ys x a (unfold contains in ground arith)
]

contains-pick_targets :
    (validation : List Text) (prior : List ResultRow) (x : Text)
    → contains validation x ≡ true
    → contains (seen_cves prior) x ≡ false
    → contains (pick_targets validation prior) x ≡ true
unfolding pick_targets missing_cves
contains-pick_targets validation prior x h new =
    let missing = contains-keep_if (λ cve. not (contains (seen_cves prior) cve)) validation x in
    contains-keep_if _ validation x ∙ ground (arith, missing)

-- If the second run has a row for every target, then the merged rows have one for every CVE of the
-- validation set whose identifier is not empty.
pub merge_results-pick_targets :
    (validation : List Text) (prior reruns : List ResultRow)
    → All (λ t. contains (cve_ids reruns) t ≡ true) (pick_targets validation prior)
    → (x : Text) → is_empty x ≡ false
    → contains validation x ≡ true
    → contains (cve_ids (merge_results prior reruns)) x ≡ true
merge_results-pick_targets validation prior reruns a x named h =
    let test : Text → Bool = λ cve. not (is_empty cve) && not (contains (seen_cves prior) cve) in
    let split = contains-append (cve_ids prior) (keep_if test (cve_ids reruns)) x in
    let new = contains-keep_if test (cve_ids reruns) x in
    rw (cve_ids-merge_results prior reruns) (elim (Bool-cases (contains (seen_cves prior) x)) [
      | inl seen ↦ ground (arith, split, contains-seen_cves prior x seen)
      | inr unseen ↦
          let run =
            All-contains _ (cve_ids reruns) x a
              (contains-pick_targets validation prior x h unseen) in
          ground (arith, split, new, run)
    ])
