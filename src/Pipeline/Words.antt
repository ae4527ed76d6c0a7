-- ===== src/Pipeline/Words.antt =====
-- The searches of `re` that the pipeline makes, and decimal numbers. `is_word` is the class `\w` of
-- one character, which stands on the tables of Unicode.
use audit_zoo_bug_byters.Base.{
  ℕ, suc, zero, Bool, false, not, ◌&&◌, ◌||◌, Option, none, some, [], ◌∷◌, Text, codes, starts_with,
  is_space, drop_while, drop, take, map, length, ◌==◌, reverse, if◌then◌else◌,
}

-- The class of a character beside a position, where there is one.
abbrev beside : (ℕ → Bool) → Option ℕ → Bool
beside is_word none = false
beside is_word (some c) = is_word c

abbrev first_of : Text → Option ℕ
first_of [] = none
first_of (c ∷ s) = some c

abbrev last_of : Option ℕ → Text → Option ℕ
last_of prev [] = prev
last_of prev (c ∷ s) = last_of (some c) s

-- `\b` between two characters
unfoldable pub is_boundary : (ℕ → Bool) → Option ℕ → Option ℕ → Bool
is_boundary is_word before after =
    (beside is_word before && not (beside is_word after))
    || (not (beside is_word before) && beside is_word after)

-- `\bTAIL\b` at the head of a text, behind the character `prev`, where two characters are the same
-- if `fold` makes them so.
unfoldable pub word_here : (ℕ → Bool) → (ℕ → ℕ) → Text → Option ℕ → Text → Bool
unfolding is_boundary
word_here is_word fold tail prev s =
    is_boundary is_word prev (first_of s)
    && starts_with (map fold s) (map fold tail)
    && is_boundary is_word (last_of prev (take (length tail) s)) (first_of (drop (length tail) s))

-- `re.search(rf"\b{re.escape(tail)}\b", s)`
unfoldable pub find_word : (ℕ → Bool) → (ℕ → ℕ) → Text → Option ℕ → Text → Bool
unfolding word_here
find_word is_word fold tail prev [] = word_here is_word fold tail prev []
find_word is_word fold tail prev (c ∷ s) =
    word_here is_word fold tail prev (c ∷ s) || find_word is_word fold tail (some c) s

-- `\s*\(` at the head of a text
unfoldable pub opens_call : Text → Bool
opens_call s = starts_with (drop_while is_space s) (codes "(")

-- `re.search(rf"\b{re.escape(tail)}\s*\(", s)`
unfoldable pub find_call : (ℕ → Bool) → Text → Option ℕ → Text → Bool
unfolding is_boundary opens_call
find_call is_word tail prev [] = false
find_call is_word tail prev (c ∷ s) =
    (is_boundary is_word prev (some c)
      && starts_with (c ∷ s) tail
      && opens_call (drop (length tail) (c ∷ s)))
    || find_call is_word tail (some c) s

-- The digits of the next number, the last digit first.
unfoldable pub bump : Text → Text
bump [] = b'1' ∷ []
bump (d ∷ ds) = let rest = bump ds in if d == b'9' then b'0' ∷ rest else suc d ∷ ds

unfoldable pub digits : ℕ → Text
unfolding bump
digits zero = b'0' ∷ []
digits (suc n) = bump (digits n)

-- `str(n)`
unfoldable pub decimal : ℕ → Text
unfolding digits
decimal n = reverse (digits n)
