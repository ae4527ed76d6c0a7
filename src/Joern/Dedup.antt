-- ===== src/Joern/Dedup.antt =====
-- What the merging of raw records promises.
use audit_zoo_bug_byters.Base.{
  ◌+◌, ◌≤◌, max, ◌≡◌, refl, inl, inr, true, Option, some, List, [], ◌∷◌, eq_ℤ_sound, eq_ℤ_refl,
  Text, codes, text_eq, strip, lower, drop_while, is_space, ◌<◌, length, length-append, ltb, ltb→lt,
  Bool-cases, arith,
}
use audit_zoo_bug_byters.Base.Strings.Laws.{text_eq_refl, text_eq_sound}
use audit_zoo_bug_byters.Schemas.{JoernRecord, Finding}
use audit_zoo_bug_byters.Joern.Records.{
  normalize_sink_code, priority, normalize_recovery_kind, make_finding, Key, key_eq, key_of,
  count_of, add_source, merge,
}

pub key_eq_refl : (k : Key) → key_eq k k ≡ true
unfolding key_eq
key_eq_refl k =
    ground (arith, text_eq_refl k.file, eq_ℤ_refl k.line, text_eq_refl k.api, text_eq_refl k.code)

pub key_eq_sound : (j k : Key) → key_eq j k ≡ true → j ≡ k
unfolding key_eq
key_eq_sound j k h =
    let p : j.file ≡ k.file = text_eq_sound j.file k.file (ground arith) in
    let q : j.line ≡ k.line = eq_ℤ_sound j.line k.line (ground arith) in
    let r : j.api ≡ k.api = text_eq_sound j.api k.api (ground arith) in
    let s : j.code ≡ k.code = text_eq_sound j.code k.code (ground arith) in
    λ i. record { file = p i; line = q i; api = r i; code = s i }

-- A word of the table is normal already.
pub normalize-fixed : (k : Text) → 0 < priority k → normalize_recovery_kind (some k) ≡ k
unfolding normalize_recovery_kind priority
normalize-fixed k h = elim (Bool-cases (text_eq k (codes "taint"))) [
  | inl e ↦
      rw (text_eq_sound k (codes "taint") e)
        (unfold lower strip drop_while is_space text_eq in refl)
  | inr e1 ↦ elim (Bool-cases (text_eq k (codes "relaxed"))) [
    | inl e ↦
        rw (text_eq_sound k (codes "relaxed") e)
          (unfold lower strip drop_while is_space text_eq in refl)
    | inr e2 ↦ elim (Bool-cases (text_eq k (codes "def_use"))) [
      | inl e ↦
          rw (text_eq_sound k (codes "def_use") e)
            (unfold lower strip drop_while is_space text_eq in refl)
      | inr e3 ↦ elim (Bool-cases (text_eq k (codes "direct_sink"))) [
        | inl e ↦
            rw (text_eq_sound k (codes "direct_sink") e)
              (unfold lower strip drop_while is_space text_eq in refl)
        | inr e4 ↦ absurd (ground arith)
      ]
    ]
  ]
]

pub normalize-pos : (v : Option Text) → 0 < priority (normalize_recovery_kind v)
unfolding normalize_recovery_kind
normalize-pos v = ground (arith, taint_pos)
  where
    taint_pos : 0 < priority (codes "taint")
    taint_pos = unfold priority text_eq in omega arith

-- The key that a finding has by its own fields.
abbrev pub key_of_finding : Finding → Key
key_of_finding f = record {
  file = f.file_path;
  line = f.line_start;
  api = f.sink_api;
  code = normalize_sink_code f.code_snippet;
}

abbrev pub kind_of : Finding → Text
kind_of f = normalize_recovery_kind f.metadata.recovery_kind

-- What every entry of the table keeps: its key is that of its finding, the sources are at most
-- eight, and a normal kind is recorded.
pub record IsEntry (k : Key) (f : Finding) : Type 0 where
  pub keyed : k ≡ key_of_finding f
  pub few : length f.metadata.dedup_sources ≤ 8

pub make_finding-IsEntry :
    (item : JoernRecord) (kind : Text) → IsEntry (key_of item) (make_finding item kind)
unfolding make_finding key_of
make_finding-IsEntry item kind = record { keyed = refl; few = ground arith }

add_source-few :
    (sources : List Text) (s : Text) → length sources ≤ 8 → length (add_source sources s) ≤ 8
unfolding add_source
add_source-few sources s h = ground (arith, length-append sources (s ∷ []))

pub merge-IsEntry :
    (k : Key) (f : Finding) (item : JoernRecord) (kind : Text)
    → k ≡ key_of item
    → IsEntry k f
    → IsEntry k (merge f item kind)
unfolding merge key_of
merge-IsEntry k f item kind same e =
    elim (Bool-cases (ltb (priority (kind_of f)) (priority kind))) [
      | inl stronger ↦ rw stronger (record {
        keyed = same;
        few = add_source-few f.metadata.dedup_sources item.source_code e.few;
      })
      | inr weaker ↦ rw weaker (record {
        keyed = e.keyed;
        few = add_source-few f.metadata.dedup_sources item.source_code e.few;
      })
    ]

-- The strength of a merged finding is the greater of the two.
pub priority-merge :
    (f : Finding) (item : JoernRecord) (kind : Text)
    → 0 < priority kind
    → priority (kind_of (merge f item kind)) ≡ max (priority (kind_of f)) (priority kind)
unfolding merge
priority-merge f item kind h = elim (Bool-cases (ltb (priority (kind_of f)) (priority kind))) [
  | inl stronger ↦ rw (stronger, normalize-fixed kind h) (omega (arith, ltb→lt _ _ stronger))
  | inr weaker ↦ rw weaker (ground arith)
]

pub count-merge :
    (f : Finding) (item : JoernRecord) (kind : Text) → count_of (merge f item kind) ≡ count_of f + 1
unfolding merge
count-merge f item kind = ground arith
