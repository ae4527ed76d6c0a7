-- ===== src/Joern/Tables.antt =====
-- The table of `_parse_taint_results` over a whole list of records.
use audit_zoo_bug_byters.Base.{
  ℕ, suc, ◌+◌, ◌≤◌, ◌≡◌, refl, ap, inl, inr, Bool, false, ◌||◌, Option, none, some, List, [], ◌∷◌,
  All, length, Bool-cases, arith,
}
use audit_zoo_bug_byters.Schemas.{JoernRecord, Finding}
use audit_zoo_bug_byters.Joern.Records.{
  normalize_recovery_kind, make_finding, Key, key_eq, key_of, count_of, Table, upsert, dedup_loop,
  values, parse_taint_results,
}
use audit_zoo_bug_byters.Joern.Dedup.{
  key_eq_refl, key_eq_sound, key_of_finding, IsEntry, make_finding-IsEntry, merge-IsEntry,
  count-merge,
}

abbrev pub has_key : Table → Key → Bool
has_key [] j = false
has_key ((k, f) ∷ t) j = key_eq k j || has_key t j

-- A key is listed once, and every entry is sound.
abbrev pub IsTable : Table → Type 0
IsTable [] = Unit
IsTable ((k, f) ∷ t) = IsEntry k f × (has_key t k ≡ false) × IsTable t

pub key_eq_symm : (j k : Key) → key_eq j k ≡ false → key_eq k j ≡ false
key_eq_symm j k h = elim (Bool-cases (key_eq k j)) [
  | inl e ↦ absurd (cc (h, key_eq_refl k, ap (λ x. key_eq x k) (key_eq_sound k j e)))
  | inr e ↦ e
]

has_key-upsert :
    (t : Table) (item : JoernRecord) (j : Key)
    → has_key (upsert t item) j ≡ (has_key t j || key_eq (key_of item) j)
unfolding upsert
has_key-upsert [] item j = ground arith
has_key-upsert ((k, f) ∷ t) item j = elim (Bool-cases (key_eq k (key_of item))) [
  | inl same ↦ rw same (ground (arith, ap (λ x. key_eq x j) (key_eq_sound k (key_of item) same)))
  | inr apart ↦ rw apart (ground (arith, has_key-upsert t item j))
]

upsert-IsTable : (t : Table) (item : JoernRecord) → IsTable t → IsTable (upsert t item)
unfolding upsert
upsert-IsTable [] item h =
    (make_finding-IsEntry item (normalize_recovery_kind item.recovery_kind), refl, tt)
upsert-IsTable ((k, f) ∷ t) item (e, fresh, h) = elim (Bool-cases (key_eq k (key_of item))) [
  | inl same ↦ rw same (
    merge-IsEntry k f item (normalize_recovery_kind item.recovery_kind)
        (key_eq_sound k (key_of item) same) e,
    fresh,
    h,
  )
  | inr apart ↦ rw apart (
    e,
    ground (arith, has_key-upsert t item k, key_eq_symm k (key_of item) apart),
    upsert-IsTable t item h,
  )
]

pub dedup_loop-IsTable :
    (t : Table) (items : List (Option JoernRecord)) → IsTable t → IsTable (dedup_loop t items)
unfolding dedup_loop
dedup_loop-IsTable t [] h = h
dedup_loop-IsTable t (none ∷ items) h = dedup_loop-IsTable t items h
dedup_loop-IsTable t (some item ∷ items) h =
    dedup_loop-IsTable (upsert t item) items (upsert-IsTable t item h)

-- A finding of the list has this sink.
abbrev pub has_sink : List Finding → Key → Bool
has_sink [] j = false
has_sink (f ∷ fs) j = key_eq (key_of_finding f) j || has_sink fs j

-- No two findings have the same file, line, API and normalised code.
abbrev pub DistinctSinks : List Finding → Type 0
DistinctSinks [] = Unit
DistinctSinks (f ∷ fs) = (has_sink fs (key_of_finding f) ≡ false) × DistinctSinks fs

has_sink-values : (t : Table) (j : Key) → IsTable t → has_sink (values t) j ≡ has_key t j
has_sink-values [] j h = refl
has_sink-values ((k, f) ∷ t) j (e, fresh, h) =
    ground (arith, has_sink-values t j h, ap (λ x. key_eq x j) e.keyed)

values-DistinctSinks : (t : Table) → IsTable t → DistinctSinks (values t)
values-DistinctSinks [] h = tt
values-DistinctSinks ((k, f) ∷ t) (e, fresh, h) =
    (rw (has_sink-values t (key_of_finding f) h) (rw e.keyed at fresh), values-DistinctSinks t h)

values-few : (t : Table) → IsTable t → All (λ f. length f.metadata.dedup_sources ≤ 8) (values t)
values-few [] h = tt
values-few ((k, f) ∷ t) (e, fresh, h) = (e.few, values-few t h)

-- Whatever the records, no two findings share file, line, API and normalised sink code, and each
-- lists at most eight sources.
pub parse_taint_results-DistinctSinks :
    (items : List (Option JoernRecord))
    → DistinctSinks (parse_taint_results (some items))
      × All (λ f. length f.metadata.dedup_sources ≤ 8) (parse_taint_results (some items))
unfolding parse_taint_results
parse_taint_results-DistinctSinks items =
    let h = dedup_loop-IsTable [] items tt in (values-DistinctSinks _ h, values-few _ h)

abbrev pub total_count : List Finding → ℕ
total_count [] = 0
total_count (f ∷ fs) = count_of f + total_count fs

total_count-upsert :
    (t : Table) (item : JoernRecord)
    → total_count (values (upsert t item)) ≡ suc (total_count (values t))
unfolding upsert
total_count-upsert [] item = unfold make_finding in omega arith
total_count-upsert ((k, f) ∷ t) item = elim (Bool-cases (key_eq k (key_of item))) [
  | inl same ↦
      rw same (omega (arith, count-merge f item (normalize_recovery_kind item.recovery_kind)))
  | inr apart ↦ rw apart (omega (arith, total_count-upsert t item))
]

abbrev pub count_dicts : List (Option JoernRecord) → ℕ
count_dicts [] = 0
count_dicts (none ∷ items) = count_dicts items
count_dicts (some item ∷ items) = suc (count_dicts items)

total_count-dedup_loop :
    (t : Table) (items : List (Option JoernRecord))
    → total_count (values (dedup_loop t items)) ≡ total_count (values t) + count_dicts items
unfolding dedup_loop
total_count-dedup_loop t [] = omega arith
total_count-dedup_loop t (none ∷ items) = total_count-dedup_loop t items
total_count-dedup_loop t (some item ∷ items) =
    omega (arith, total_count-dedup_loop (upsert t item) items, total_count-upsert t item)

-- The counts of the findings add up to the number of records that are dicts: merging loses none.
pub total_count-parse_taint_results :
    (items : List (Option JoernRecord))
    → total_count (parse_taint_results (some items)) ≡ count_dicts items
unfolding parse_taint_results
total_count-parse_taint_results items = omega (arith, total_count-dedup_loop [] items)
