-- ===== src/Catalog/Grammar.antt =====
-- The automaton against the grammar of dotted identifiers.
use audit_zoo_bug_byters.Base.{
  ℕ, ◌≡◌, refl, sym, ◌∙◌, inl, inr, Bool, true, false, [], ◌∷◌, ◌++◌, Text, ◌==◌, All, All-append,
  Bool-cases, arith, append_assoc, append-nil,
}
use audit_zoo_bug_byters.Catalog.{is_ident_start, is_ident, matches_dotted}

abbrev pub IsIdentifier : Text → Type 0
IsIdentifier [] = ⊥
IsIdentifier (c ∷ s) = (is_ident_start c ≡ true) × All (λ d. is_ident d ≡ true) s

-- One identifier, or an identifier, a dot and a dotted identifier.
pub data IsDotted : Text → Type 0 where
  single : {s : Text} → IsIdentifier s → IsDotted s
  dotted : (s t : Text) {u : Text} → IsIdentifier s → IsDotted t → u ≡ s ++ (b'.' ∷ t) → IsDotted u

-- A dotted identifier, or one with a line feed behind it.
pub data IsAccepted (s : Text) : Type 0 where
  plain : IsDotted s → IsAccepted s
  with_newline : (u : Text) → IsDotted u → s ≡ u ++ (10 ∷ []) → IsAccepted s

is_ident-of_start : (c : ℕ) → is_ident_start c ≡ true → is_ident c ≡ true
unfolding is_ident
is_ident-of_start c h = ground arith

-- An identifier with one more character.
IsIdentifier-snoc :
    (p : Text) (c : ℕ) → IsIdentifier p → is_ident c ≡ true → IsIdentifier (p ++ (c ∷ []))
IsIdentifier-snoc [] c h e = absurd h
IsIdentifier-snoc (d ∷ p) c (h, hs) e = (h, All-append _ p (c ∷ []) hs (e, tt))

-- What a run of the automaton shows, from either state.
abbrev Shows : Bool → Text → Type 0
Shows true s = IsAccepted s
Shows false s = (p : Text) → IsIdentifier p → IsAccepted (p ++ s)

dotted-IsAccepted : (p s : Text) → IsIdentifier p → IsAccepted s → IsAccepted (p ++ (b'.' ∷ s))
dotted-IsAccepted p s i (plain d) = plain (dotted p s i d refl)
dotted-IsAccepted p s i (with_newline u d e) =
    with_newline (p ++ (b'.' ∷ u)) (dotted p u i d refl)
      (rw e (sym (append_assoc p (b'.' ∷ u) (10 ∷ []))))

step_inside :
    (c : ℕ) (s : Text)
    → is_ident c ≡ true
    → matches_dotted false (c ∷ s) ≡ true
    → matches_dotted false s ≡ true
unfolding matches_dotted
step_inside c s h e =
    let no_dot : (c == b'.') ≡ false = unfold is_ident in ground arith in ground arith

shows_newline :
    (p : Text)
    → IsIdentifier p
    → (c : ℕ) (s : Text) → is_ident c ≡ false
    → (c == b'.') ≡ false
    → matches_dotted false (c ∷ s) ≡ true
    → IsAccepted (p ++ (c ∷ s))
unfolding matches_dotted
shows_newline p i c [] h k m =
    let e : c ≡ 10 = ground arith in rw e (with_newline p (single i) refl)
shows_newline p i c (d ∷ s) h k m = absurd (ground arith)

matches_dotted-Shows : (begins : Bool) (s : Text) → matches_dotted begins s ≡ true → Shows begins s
unfolding matches_dotted
matches_dotted-Shows true [] h = cc
matches_dotted-Shows false [] h = λ p i. rw append-nil (plain (single i))
matches_dotted-Shows true (c ∷ s) h =
    let start : is_ident_start c ≡ true = ground arith in
    matches_dotted-Shows false s (unfold is_ident_start in ground arith) (c ∷ []) (start, tt)
matches_dotted-Shows false (c ∷ s) h = λ p i. elim (Bool-cases (is_ident c)) [
  | inl inside ↦ rw (append_assoc p (c ∷ []) s) at (
      matches_dotted-Shows false s (step_inside c s inside h) (p ++ (c ∷ []))
        (IsIdentifier-snoc p c i inside))
  | inr outside ↦ elim (Bool-cases (c == b'.')) [
    | inl dot ↦
        let e : c ≡ b'.' = ground arith in
        rw e (dotted-IsAccepted p s i (matches_dotted-Shows true s (ground arith)))
    | inr no_dot ↦ shows_newline p i c s outside no_dot h
  ]
]

-- The automaton accepts only dotted identifiers, and those with one line feed behind them.
pub matches_dotted_sound : (s : Text) → matches_dotted true s ≡ true → IsAccepted s
matches_dotted_sound s h = matches_dotted-Shows true s h

-- Inside an identifier it reads on.
matches_dotted-inside :
    (w r : Text)
    → All (λ d. is_ident d ≡ true) w
    → matches_dotted false (w ++ r) ≡ matches_dotted false r
unfolding matches_dotted
matches_dotted-inside [] r h = refl
matches_dotted-inside (c ∷ w) r (h, hs) =
    let no_dot : (c == b'.') ≡ false = unfold is_ident in ground arith in
    rw (no_dot, h) (matches_dotted-inside w r hs)

matches_dotted-identifier :
    (s r : Text) → IsIdentifier s → matches_dotted true (s ++ r) ≡ matches_dotted false r
unfolding matches_dotted
matches_dotted-identifier [] r h = absurd h
matches_dotted-identifier (c ∷ s) r (h, hs) =
    let no_dot : (c == b'.') ≡ false = unfold is_ident_start in ground arith in
    rw (no_dot, h) (matches_dotted-inside s r hs)

-- A rest that the automaton accepts inside an identifier is accepted behind a dotted one.
pub matches_dotted-IsDotted :
    (r : Text) {s : Text}
    → IsDotted s
    → matches_dotted false r ≡ true
    → matches_dotted true (s ++ r) ≡ true
unfolding matches_dotted is_ident
matches_dotted-IsDotted r (single {s} i) h = matches_dotted-identifier s r i ∙ h
matches_dotted-IsDotted r (dotted s t {u} i d e) h =
    rw (e, append_assoc s (b'.' ∷ t) r, matches_dotted-identifier s (b'.' ∷ (t ++ r)) i)
      (matches_dotted-IsDotted r d h)
