-- ===== src/Score/Lines.antt =====
-- Sets of lines as the scorer keeps them, and the lines of one that are not in another.
use audit_zoo_bug_byters.Base.{
  suc, ◌+◌, ◌≡◌, refl, ap, inl, inr, true, false, ◌||◌, List, [], ◌∷◌, ℤ, mem_ℤ, eq_ℤ, eq_ℤ_sound,
  length, arith, Bool-cases,
}
use audit_zoo_bug_byters.Score.{add_line, count_missed}

pub mem_ℤ-add_line : (vs : List ℤ) (w v : ℤ) → mem_ℤ (add_line vs w) v ≡ (mem_ℤ vs v || eq_ℤ w v)
unfolding add_line mem_ℤ
mem_ℤ-add_line vs w v = elim (Bool-cases (mem_ℤ vs w)) [
  | inl old ↦ elim (Bool-cases (eq_ℤ w v)) [
    | inl same ↦
        let e : w ≡ v = eq_ℤ_sound w v same in rw (old, same) (ground (arith, ap (mem_ℤ vs) e))
    | inr other ↦ ground arith
  ]
  | inr new ↦ ground arith
]

-- No line is listed twice.
abbrev pub NodupLines : List ℤ → Type 0
NodupLines [] = Unit
NodupLines (v ∷ vs) = (mem_ℤ vs v ≡ false) × NodupLines vs

pub add_line-NodupLines : (vs : List ℤ) (v : ℤ) → NodupLines vs → NodupLines (add_line vs v)
unfolding add_line
add_line-NodupLines vs v u = elim (Bool-cases (mem_ℤ vs v)) [
  | inl old ↦ rw old u
  | inr new ↦ rw new (new, u)
]

count_missed-cons_fresh :
    (lines : List ℤ) (v : ℤ) (m : List ℤ)
    → mem_ℤ lines v ≡ false
    → count_missed lines m ≡ count_missed lines (v ∷ m)
unfolding count_missed mem_ℤ
count_missed-cons_fresh [] v m h = refl
count_missed-cons_fresh (w ∷ ws) v m h = ground (arith, count_missed-cons_fresh ws v m)

-- One more matched line takes one line off the missed ones, if it was among them.
count_missed-cons :
    (lines : List ℤ) (v : ℤ) (m : List ℤ)
    → NodupLines lines
    → mem_ℤ lines v ≡ true
    → mem_ℤ m v ≡ false
    → count_missed lines m ≡ suc (count_missed lines (v ∷ m))
unfolding count_missed mem_ℤ
count_missed-cons [] v m u h new = cc
count_missed-cons (w ∷ ws) v m (fresh, u) h new = elim (Bool-cases (eq_ℤ v w)) [
  | inl same ↦
      let e : v ≡ w = eq_ℤ_sound v w same in
      ground (arith, ap (mem_ℤ m) e, ap (mem_ℤ ws) e, count_missed-cons_fresh ws v m)
  | inr other ↦ ground (arith, count_missed-cons ws v m u)
]

pub count_missed-nil : (lines : List ℤ) → count_missed lines [] ≡ length lines
unfolding count_missed mem_ℤ
count_missed-nil [] = refl
count_missed-nil (v ∷ vs) = ap suc (count_missed-nil vs)

-- A set of lines that are all among those of the ground truth.
abbrev pub AllIn : List ℤ → List ℤ → Type 0
AllIn lines [] = Unit
AllIn lines (v ∷ vs) = (mem_ℤ lines v ≡ true) × AllIn lines vs

-- `len(lines - matched)` is `len(lines) - len(matched)` for a set of lines and a subset of it.
pub count_missed-length :
    (lines m : List ℤ)
    → NodupLines lines
    → NodupLines m
    → AllIn lines m
    → count_missed lines m + length m ≡ length lines
count_missed-length lines [] u _ _ = omega (arith, count_missed-nil lines)
count_missed-length lines (v ∷ m) u (new, um) (h, hs) =
    omega (arith, count_missed-length lines m u um hs, count_missed-cons lines v m u h new)
