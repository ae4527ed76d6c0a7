-- ===== src/Joern/Strength.antt =====
-- The kind that a merged finding keeps.
use audit_zoo_bug_byters.Base.{
  ℕ, max, ◌≡◌, refl, ap, ◌∙◌, inl, inr, false, Option, none, some, List, [], ◌∷◌, Bool-cases, arith,
  if◌then◌else◌,
}
use audit_zoo_bug_byters.Schemas.{JoernRecord, Finding}
use audit_zoo_bug_byters.Joern.Records.{
  priority, normalize_recovery_kind, make_finding, Key, key_eq, key_of, Table, upsert, dedup_loop,
  values, parse_taint_results,
}
use audit_zoo_bug_byters.Joern.Dedup.{
  key_eq_sound, key_of_finding, kind_of, normalize-fixed, normalize-pos, priority-merge,
}
use audit_zoo_bug_byters.Joern.Tables.{IsTable, dedup_loop-IsTable, key_eq_symm}

strength_at : Table → Key → ℕ
strength_at [] j = 0
strength_at ((k, f) ∷ t) j = if key_eq k j then priority (kind_of f) else strength_at t j

strength_at-upsert :
    (t : Table) (item : JoernRecord) (j : Key)
    → strength_at (upsert t item) j ≡ (
        if key_eq (key_of item) j
        then max (strength_at t j) (priority (normalize_recovery_kind item.recovery_kind))
        else strength_at t j)
unfolding upsert strength_at
strength_at-upsert [] item j =
    unfold make_finding in rw (normalize-fixed _ (normalize-pos item.recovery_kind)) (ground arith)
strength_at-upsert ((k, f) ∷ t) item j = elim (Bool-cases (key_eq k (key_of item))) [
  | inl same ↦
      rw (same, priority-merge f item _ (normalize-pos item.recovery_kind))
        (ground (arith, ap (λ x. key_eq x j) (key_eq_sound k (key_of item) same)))
  | inr apart ↦ rw apart (elim (Bool-cases (key_eq k j)) [
    | inl here ↦
        let e : key_eq (key_of item) j ≡ false =
          rw (key_eq_sound k j here) at (key_eq_symm k (key_of item) apart) in
        rw (here, e)
    | inr past ↦ rw past (strength_at-upsert t item j)
  ])
]

-- The strength of the first finding with a sink, and 0 where there is none.
abbrev pub strength_of : List Finding → Key → ℕ
strength_of [] j = 0
strength_of (f ∷ fs) j =
    if key_eq (key_of_finding f) j then priority (kind_of f) else strength_of fs j

-- The greatest strength of the records with a sink, and 0 where there is none.
abbrev pub strongest : List (Option JoernRecord) → Key → ℕ
strongest [] j = 0
strongest (none ∷ items) j = strongest items j
strongest (some item ∷ items) j =
    if key_eq (key_of item) j
    then max (priority (normalize_recovery_kind item.recovery_kind)) (strongest items j)
    else strongest items j

strength_at-dedup_loop :
    (t : Table) (items : List (Option JoernRecord)) (j : Key)
    → strength_at (dedup_loop t items) j ≡ max (strength_at t j) (strongest items j)
unfolding dedup_loop
strength_at-dedup_loop t [] j = omega arith
strength_at-dedup_loop t (none ∷ items) j = strength_at-dedup_loop t items j
strength_at-dedup_loop t (some item ∷ items) j =
    rw (strength_at-dedup_loop (upsert t item) items j, strength_at-upsert t item j) (ground arith)

strength_of-values : (t : Table) (j : Key) → IsTable t → strength_of (values t) j ≡ strength_at t j
unfolding strength_at
strength_of-values [] j h = refl
strength_of-values ((k, f) ∷ t) j (e, fresh, h) =
    ground (arith, strength_of-values t j h, ap (λ x. key_eq x j) e.keyed)

-- For every sink, the finding with it carries the strongest kind of all the records with it (taint
-- before relaxed before def_use before direct_sink, and any other word counts as taint), and there
-- is such a finding only if there is such a record.
pub strength_of-parse_taint_results :
    (items : List (Option JoernRecord)) (j : Key)
    → strength_of (parse_taint_results (some items)) j ≡ strongest items j
unfolding parse_taint_results
strength_of-parse_taint_results items j =
    strength_of-values (dedup_loop [] items) j (dedup_loop-IsTable [] items tt)
    ∙ strength_at-dedup_loop [] items j
    ∙ (unfold strength_at in omega arith)
