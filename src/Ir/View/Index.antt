-- ===== src/Ir/View/Index.antt =====
-- What the index of the kinds holds after each write.
use audit_zoo_bug_byters.Base.{
  ◌≡◌, Bool-cases, inl, inr, ◌||◌, ◌&&◌, List, [], ◌∷◌, Text, text_eq, contains, arith,
}
use audit_zoo_bug_byters.Base.Strings.Laws.{contains-append, text_eq_sound, text_eq_refl}
use audit_zoo_bug_byters.Ir.View.{set_add, index_add, index_touch, index_ids}

swapped :
    (x : Text) (s : List Text) (y : Text)
    → (contains s y || contains (x ∷ []) y) ≡ (text_eq x y || contains s y)
unfolding contains
swapped x s y = ground arith

pub contains-set_add :
    (x : Text) (s : List Text) (y : Text) → contains (set_add x s) y ≡ (text_eq x y || contains s y)
unfolding set_add
contains-set_add x s y = elim (Bool-cases (contains s x)) [
  | inl old ↦ elim (Bool-cases (text_eq x y)) [
    | inl same ↦ let e = text_eq_sound x y same in rw (old, same) (rw (← e) old)
    | inr apart ↦ rw (old, apart)
  ]
  | inr new ↦ rw (new, contains-append s (x ∷ []) y) (swapped x s y)
]

pub index_ids-index_add :
    (kind i : Text) (index : List (Text × List Text)) (k j : Text)
    → contains (index_ids (index_add kind i index) k) j
      ≡ ((text_eq kind k && text_eq i j) || contains (index_ids index k) j)
unfolding index_add index_ids contains
index_ids-index_add kind i [] k j = ground arith
index_ids-index_add kind i ((l, ids) ∷ index) k j = elim (Bool-cases (text_eq l kind)) [
  | inl same ↦
      let e = text_eq_sound l kind same in rw (same, e) (ground (arith, contains-set_add i ids j))
  | inr apart ↦ ground (
    arith,
    index_ids-index_add kind i index k j,
    text_eq_sound kind k,
    text_eq_sound l k,
    text_eq_refl kind,
  )
]

pub index_ids-index_touch :
    (kind : Text) (index : List (Text × List Text)) (k : Text)
    → index_ids (index_touch kind index) k ≡ index_ids index k
unfolding index_touch index_ids
index_ids-index_touch kind [] k = ground arith
index_ids-index_touch kind ((l, ids) ∷ index) k = ground (arith, index_ids-index_touch kind index k)
