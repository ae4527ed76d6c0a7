-- ===== src/Base/Strings.antt =====
-- Python's `str` as the list of its code points, with the methods that the program calls.
pub mod Laws
pub mod Joined
pub mod Strip
use Prim.Native.Nat.{ℕ, zero, suc, ◌+◌}
use Prim.Native.Char.{code}
use Prim.Native.String.{String}
use mathlib.Core.Bool.{Bool, true, false, not, ◌&&◌, ◌||◌}
use mathlib.Core.List.{List, [], ◌∷◌, ◌++◌, reverse}
use audit_zoo_bug_byters.Base.Tests.{ltb, leb, ◌==◌, if◌then◌else◌}

abbrev pub Text : Type 0
Text = List ℕ

-- A literal.
abbrev pub codes : String → Text
codes String.[] = []
codes (String.◌∷◌ c s) = code c ∷ codes s

-- `a == b`
unfoldable pub text_eq : Text → Text → Bool
text_eq [] [] = true
text_eq [] (d ∷ t) = false
text_eq (c ∷ s) [] = false
text_eq (c ∷ s) (d ∷ t) = c == d && text_eq s t

-- `not s`, for a string
abbrev pub is_empty {ℓ} : {A : Type ℓ} → List A → Bool
is_empty [] = true
is_empty (c ∷ s) = false

-- `s or t`, for strings
abbrev pub or_text : Text → Text → Text
or_text [] t = t
or_text (c ∷ s) t = c ∷ s

-- `s.startswith(p)`
unfoldable pub starts_with : Text → Text → Bool
starts_with s [] = true
starts_with [] (d ∷ p) = false
starts_with (c ∷ s) (d ∷ p) = c == d && starts_with s p

-- `s.endswith(p)`
unfoldable pub ends_with : Text → Text → Bool
ends_with s p = starts_with (reverse s) (reverse p)

-- `n in h`
unfoldable pub occurs_in : Text → Text → Bool
occurs_in n [] = starts_with [] n
occurs_in n (c ∷ h) = starts_with (c ∷ h) n || occurs_in n h

-- `str.isspace` of one character
unfoldable pub is_space : ℕ → Bool
is_space c =
    (leb 9 c && leb c 13)
    || (leb 28 c && leb c 32)
    || c == 133
    || c == 160
    || c == 5760
    || (leb 8192 c && leb c 8202)
    || c == 8232
    || c == 8233
    || c == 8239
    || c == 8287
    || c == 12288

unfoldable pub drop_while : (ℕ → Bool) → Text → Text
drop_while p [] = []
drop_while p (c ∷ s) = if p c then drop_while p s else c ∷ s

-- `s.strip(chars)`, for a test on the characters that go
unfoldable pub strip_by : (ℕ → Bool) → Text → Text
strip_by p s = reverse (drop_while p (reverse (drop_while p s)))

-- `s.strip()`
unfoldable pub strip : Text → Text
unfolding strip_by
strip s = strip_by is_space s

-- `s.split(c, 1)[0]`, which is `s` where `c` does not occur
unfoldable pub before : ℕ → Text → Text
before c [] = []
before c (d ∷ s) = let rest = before c s in if d == c then [] else d ∷ rest

-- `s.rsplit(c, 1)[-1]`
unfoldable pub after_last : ℕ → Text → Text
unfolding before
after_last c s = reverse (before c (reverse s))

-- The lower case of one character. Of the characters beyond ASCII only the Kelvin sign has a lower
-- case in ASCII; the others are kept, and the program compares lower case with ASCII words alone.
unfoldable pub lower_char : ℕ → ℕ
lower_char c = if leb 65 c && leb c 90 then c + 32 else if c == 8490 then 107 else c

-- `s.lower()`
unfoldable pub lower : Text → Text
unfolding lower_char
lower [] = []
lower (c ∷ s) = lower_char c ∷ lower s

-- `sep.join(p for p in parts if p)`
unfoldable pub join_nonempty : Text → List Text → Text
join_nonempty sep [] = []
join_nonempty sep ([] ∷ ps) = join_nonempty sep ps
join_nonempty sep ((c ∷ p) ∷ ps) =
    let rest = join_nonempty sep ps in if is_empty rest then c ∷ p else (c ∷ p) ++ (sep ++ rest)

-- `t in xs`, for a list of strings
unfoldable pub contains : List Text → Text → Bool
contains [] t = false
contains (x ∷ xs) t = text_eq x t || contains xs t

-- `a < b`
unfoldable pub text_lt : Text → Text → Bool
text_lt s [] = false
text_lt [] (d ∷ t) = true
text_lt (c ∷ s) (d ∷ t) = ltb c d || (c == d && text_lt s t)

-- A text put into a sorted list that does not hold it yet.
unfoldable pub insert_text : Text → List Text → List Text
unfolding text_lt text_eq
insert_text t [] = t ∷ []
insert_text t (x ∷ xs) =
    let rest = insert_text t xs in
    if text_lt t x then t ∷ x ∷ xs else if text_eq t x then x ∷ xs else x ∷ rest

-- `sorted(set(ts))`
unfoldable pub sorted_set : List Text → List Text
unfolding insert_text
sorted_set [] = []
sorted_set (t ∷ ts) = insert_text t (sorted_set ts)
