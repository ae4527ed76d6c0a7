-- ===== src/Base/Strings/Joined.antt =====
-- A text that occurs in parts joined by line feeds.
use audit_zoo_bug_byters.Base.{
  ℕ, ◌≡◌, refl, Bool, true, false, ◌||◌, List, [], ◌∷◌, ◌++◌, Text, codes, is_empty, starts_with,
  occurs_in, join_nonempty, Bool-cases, inl, inr, arith, ◌==◌,
}

unfoldable pub has_feed : Text → Bool
has_feed [] = false
has_feed (c ∷ s) = c == b'\n' || has_feed s

-- The text occurs in one of the parts.
unfoldable pub in_some_part : Text → List Text → Bool
in_some_part n [] = false
in_some_part n (p ∷ ps) = occurs_in n p || in_some_part n ps

starts_with-feed :
    (n p r : Text)
    → has_feed n ≡ false
    → starts_with (p ++ (b'\n' ∷ r)) n ≡ true
    → starts_with p n ≡ true
unfolding has_feed starts_with
starts_with-feed [] p r h s = refl
starts_with-feed (d ∷ n) [] r h s = ground arith
starts_with-feed (d ∷ n) (c ∷ p) r h s = ground (arith, starts_with-feed n p r)

occurs_in-feed :
    (n p r : Text)
    → has_feed n ≡ false
    → occurs_in n (p ++ (b'\n' ∷ r)) ≡ true
    → (occurs_in n p || occurs_in n r) ≡ true
unfolding occurs_in
occurs_in-feed n [] r h o = ground (arith, starts_with-feed n [] r h)
occurs_in-feed n (c ∷ p) r h o =
    ground (arith, starts_with-feed n (c ∷ p) r h, occurs_in-feed n p r h)

-- A text without a line feed does not cross the joints.
pub in_some_part-join_nonempty :
    (d : ℕ) (n : Text) (ps : List Text)
    → has_feed (d ∷ n) ≡ false
    → occurs_in (d ∷ n) (join_nonempty (codes "\n") ps) ≡ true
    → in_some_part (d ∷ n) ps ≡ true
unfolding join_nonempty in_some_part
in_some_part-join_nonempty d n [] h o = unfold occurs_in starts_with in absurd (cc o)
in_some_part-join_nonempty d n ([] ∷ ps) h o = ground (arith, in_some_part-join_nonempty d n ps h o)
in_some_part-join_nonempty d n ((c ∷ p) ∷ ps) h o =
    elim (Bool-cases (is_empty (join_nonempty (codes "\n") ps))) [
      | inl last ↦ let o' : occurs_in (d ∷ n) (c ∷ p) ≡ true = rw last at o in ground arith
      | inr more ↦
          let o' : occurs_in (d ∷ n) ((c ∷ p) ++ (b'\n' ∷ join_nonempty (codes "\n") ps)) ≡ true =
            rw more at o in
          let split = occurs_in-feed (d ∷ n) (c ∷ p) (join_nonempty (codes "\n") ps) h o' in
          ground (arith, split, in_some_part-join_nonempty d n ps h)
    ]
