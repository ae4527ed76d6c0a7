-- ===== src/Base/Strings/Laws.antt =====
-- The tests on text against what they decide.
use mathlib.Core.Path.{◌≡◌, refl, ap}
use mathlib.Core.Logic.{◌↔◌, inl, inr}
use mathlib.Core.Bool.{true, ◌||◌}
use mathlib.Core.List.{List, [], ◌∷◌, ◌++◌, append_assoc}
use native.Mathlib.Omega.{arith}
use audit_zoo_bug_byters.Base.Tests.{Bool-cases}
use audit_zoo_bug_byters.Base.Strings.{Text, text_eq, starts_with, occurs_in, contains}

pub text_eq_sound : (s t : Text) → text_eq s t ≡ true → s ≡ t
unfolding text_eq
text_eq_sound [] [] h = refl
text_eq_sound [] (d ∷ t) h = cc
text_eq_sound (c ∷ s) [] h = cc
text_eq_sound (c ∷ s) (d ∷ t) h = ground (arith, text_eq_sound s t)

pub text_eq_refl : (s : Text) → text_eq s s ≡ true
unfolding text_eq
text_eq_refl [] = refl
text_eq_refl (c ∷ s) = ground (arith, text_eq_refl s)

pub text_eq_iff : (s t : Text) → (text_eq s t ≡ true) ↔ (s ≡ t)
text_eq_iff s t = (text_eq_sound s t, λ e. rw e (text_eq_refl t))

pub starts_with-append : (p s : Text) → starts_with (p ++ s) p ≡ true
unfolding starts_with
starts_with-append [] s = refl
starts_with-append (c ∷ p) s = ground (arith, starts_with-append p s)

pub starts_with_sound : (s p : Text) → starts_with s p ≡ true → (r : Text) × (s ≡ p ++ r)
unfolding starts_with
starts_with_sound s [] h = (s, refl)
starts_with_sound [] (d ∷ p) h = cc
starts_with_sound (c ∷ s) (d ∷ p) h =
    let e : c ≡ d = ground arith in let (r, q) = starts_with_sound s p (ground arith) in (r, cc)

-- `n` stands somewhere in `h`.
abbrev pub Occurs : Text → Text → Type 0
Occurs n h = (a : Text) × (b : Text) × (h ≡ a ++ (n ++ b))

pub occurs_in-append : (a n b : Text) → occurs_in n (a ++ (n ++ b)) ≡ true
unfolding occurs_in starts_with
occurs_in-append [] [] [] = refl
occurs_in-append [] [] (c ∷ b) = refl
occurs_in-append [] (d ∷ n) b = rw (starts_with-append (d ∷ n) b)
occurs_in-append (c ∷ a) n b = ground (arith, occurs_in-append a n b)

pub occurs_in_sound : (n h : Text) → occurs_in n h ≡ true → Occurs n h
unfolding occurs_in starts_with
occurs_in_sound n [] p = let (r, e) = starts_with_sound [] n p in ([], r, e)
occurs_in_sound n (c ∷ h) p = elim (Bool-cases (starts_with (c ∷ h) n)) [
  | inl s ↦ let (r, e) = starts_with_sound (c ∷ h) n s in ([], r, e)
  | inr s ↦ let (a, b, e) = occurs_in_sound n h (ground arith) in (c ∷ a, b, ap (λ t. c ∷ t) e)
]

-- What occurs in a text still does when the text is continued.
pub occurs_in-continued : (n h k : Text) → occurs_in n h ≡ true → occurs_in n (h ++ k) ≡ true
occurs_in-continued n h k p =
    let (a, b, e) = occurs_in_sound n h p in
    rw (e, append_assoc a (n ++ b) k, append_assoc n b k) (occurs_in-append a n (b ++ k))

pub contains-append :
    (xs ys : List Text) (t : Text) → contains (xs ++ ys) t ≡ (contains xs t || contains ys t)
unfolding contains
contains-append [] ys t = refl
contains-append (x ∷ xs) ys t = ground (arith, contains-append xs ys t)
