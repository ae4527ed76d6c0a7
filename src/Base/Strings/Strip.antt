-- ===== src/Base/Strings/Strip.antt =====
-- When cutting and stripping leave a text as it is.
use mathlib.Core.Path.{◌≡◌, refl, sym, ap}
use mathlib.Core.Bool.{Bool, true, false}
use mathlib.Core.List.{[], ◌∷◌, ◌++◌, reverse, reverse-append, reverse-reverse}
use mathlib.Core.Path.{◌≡⟨◌⟩◌, ◌∎}
use Prim.Native.Nat.{ℕ}
use audit_zoo_bug_byters.Base.Tests.{◌==◌}
use audit_zoo_bug_byters.Base.Lists.{All}
use audit_zoo_bug_byters.Base.Strings.{Text, before, drop_while, strip_by}

pub before-absent : (c : ℕ) (s : Text) → All (λ d. (d == c) ≡ false) s → before c s ≡ s
unfolding before
before-absent c [] h = refl
before-absent c (d ∷ s) (h, hs) = rw (h, before-absent c s hs)

drop_while-first : (p : ℕ → Bool) (c : ℕ) (s : Text) → p c ≡ false → drop_while p (c ∷ s) ≡ c ∷ s
unfolding drop_while
drop_while-first p c s h = rw h

-- A text with a first and a last character that the test `p` does not take.
pub record Ends (p : ℕ → Bool) (s : Text) : Type 0 where
  pub first : ℕ
  pub tail : Text
  pub front : Text
  pub last : ℕ
  pub from_first : s ≡ first ∷ tail
  pub to_last : s ≡ front ++ (last ∷ [])
  pub first_stays : p first ≡ false
  pub last_stays : p last ≡ false

reverse-snoc : (w : Text) (d : ℕ) → reverse (w ++ (d ∷ [])) ≡ d ∷ reverse w
reverse-snoc w d = reverse-append w (d ∷ [])

-- What `strip_by` does, once the left end is known to stay.
strip_by-left :
    (p : ℕ → Bool) (c : ℕ) (w : Text)
    → p c ≡ false
    → strip_by p (c ∷ w) ≡ reverse (drop_while p (reverse (c ∷ w)))
unfolding strip_by
strip_by-left p c w h = ap (λ t. reverse (drop_while p (reverse t))) (drop_while-first p c w h)

strip_right-Ends : (p : ℕ → Bool) (s : Text) → Ends p s → reverse (drop_while p (reverse s)) ≡ s
strip_right-Ends p s e =
    reverse (drop_while p (reverse s))
    ≡⟨ ap (λ t. reverse (drop_while p (reverse t))) e.to_last ⟩
      reverse (drop_while p (reverse (e.front ++ (e.last ∷ []))))
    ≡⟨ ap (λ t. reverse (drop_while p t)) (reverse-snoc e.front e.last) ⟩
      reverse (drop_while p (e.last ∷ reverse e.front))
    ≡⟨ ap reverse (drop_while-first p e.last (reverse e.front) e.last_stays) ⟩
      reverse (e.last ∷ reverse e.front)
    ≡⟨ ap reverse (sym (reverse-snoc e.front e.last)) ⟩ reverse (reverse (e.front ++ (e.last ∷ [])))
    ≡⟨ reverse-reverse (e.front ++ (e.last ∷ [])) ⟩ e.front ++ (e.last ∷ [])
    ≡⟨ sym e.to_last ⟩ s ∎

pub strip_by-Ends : (p : ℕ → Bool) (s : Text) → Ends p s → strip_by p s ≡ s
strip_by-Ends p s e =
    strip_by p s
    ≡⟨ ap (strip_by p) e.from_first ⟩ strip_by p (e.first ∷ e.tail)
    ≡⟨ strip_by-left p e.first e.tail e.first_stays ⟩
      reverse (drop_while p (reverse (e.first ∷ e.tail)))
    ≡⟨ ap (λ t. reverse (drop_while p (reverse t))) (sym e.from_first) ⟩
      reverse (drop_while p (reverse s))
    ≡⟨ strip_right-Ends p s e ⟩ s ∎

drop_while-taken :
    (p : ℕ → Bool) (c : ℕ) (s : Text) → p c ≡ true → drop_while p (c ∷ s) ≡ drop_while p s
unfolding drop_while
drop_while-taken p c s h = rw h

-- One character that the test takes goes from the right end.
pub strip_by-snoc :
    (p : ℕ → Bool) (s : Text) (d : ℕ) → Ends p s → p d ≡ true → strip_by p (s ++ (d ∷ [])) ≡ s
strip_by-snoc p s d e h =
    strip_by p (s ++ (d ∷ []))
    ≡⟨ ap (λ t. strip_by p (t ++ (d ∷ []))) e.from_first ⟩
      strip_by p (e.first ∷ (e.tail ++ (d ∷ [])))
    ≡⟨ strip_by-left p e.first (e.tail ++ (d ∷ [])) e.first_stays ⟩
      reverse (drop_while p (reverse ((e.first ∷ e.tail) ++ (d ∷ []))))
    ≡⟨ ap (λ t. reverse (drop_while p (reverse (t ++ (d ∷ []))))) (sym e.from_first) ⟩
      reverse (drop_while p (reverse (s ++ (d ∷ []))))
    ≡⟨ ap (λ t. reverse (drop_while p t)) (reverse-snoc s d) ⟩
      reverse (drop_while p (d ∷ reverse s))
    ≡⟨ ap reverse (drop_while-taken p d (reverse s) h) ⟩ reverse (drop_while p (reverse s))
    ≡⟨ strip_right-Ends p s e ⟩ s ∎
