-- ===== src/Triage/Laws.antt =====
-- What a verdict of the triage agent promises.
use audit_zoo_bug_byters.Base.{
  ℕ, suc, zero, ◌+◌, ◌≤◌, ◌≡◌, refl, ap, true, ◌||◌, Bool-cases, inl, inr, List, [], ◌∷◌, Text,
  length, strip, arith, get_elem?, some, occurs_in,
}
use audit_zoo_bug_byters.Base.Strings.Laws.{Occurs, occurs_in_sound}
use audit_zoo_bug_byters.Base.Strings.Joined.{has_feed, in_some_part, in_some_part-join_nonempty}
use audit_zoo_bug_byters.Schemas.{true_positive, Finding}
use audit_zoo_bug_byters.Triage.{
  Reply, raised, answered, snippet_text, substring_ok, conclude, evidence_at, triage, triage_from,
  triage_batch,
}

-- The test is exactly that the stripped needle has two characters and occurs.
pub substring_ok_sound :
    (n h : Text) → substring_ok n h ≡ true → (2 ≤ length (strip n)) × (occurs_in (strip n) h ≡ true)
unfolding substring_ok
substring_ok_sound n h p = ground arith

pub conclude-committed :
    (f : Finding) (evidence : Text) (r : Reply)
    → (conclude f evidence r).verdict ≡ true_positive
    → substring_ok (conclude f evidence r).source_expr (snippet_text f evidence) ≡ true
unfolding conclude
conclude-committed f evidence (raised why) h = ground arith
conclude-committed f evidence (answered v a b s k) h = ground arith

-- A text that occurs in the snippet text, and crosses no line, occurs in one of its parts.
one_line :
    (n : Text) (f : Finding) (evidence : Text)
    → 2 ≤ length n
    → occurs_in n (snippet_text f evidence) ≡ true
    → (has_feed n || in_some_part n (f.surrounding_context ∷ f.code_snippet ∷ evidence ∷ [])) ≡ true
unfolding snippet_text
one_line [] f evidence l o = absurd (omega (arith, l))
one_line (d ∷ n) f evidence l o = elim (Bool-cases (has_feed (d ∷ n))) [
  | inl feed ↦ rw feed refl
  | inr none_there ↦ rw none_there (in_some_part-join_nonempty d n _ none_there o)
]

module _ (ask : Finding → Text → Reply) where
  -- Whatever the model answers, a `true_positive` that the agent returns quotes a source of at
  -- least two characters, blanks at its ends aside, that stands in the snippet text: the context, the
  -- snippet and the evidence, joined by line feeds. If the quote has no line feed, it stands in one of
  -- these three.
  pub triage-quotes_source :
      (f : Finding) (evidence : Text)
      → (triage ask f evidence).verdict ≡ true_positive
      → let quote = strip (triage ask f evidence).source_expr in
        (2 ≤ length quote)
        × Occurs quote (snippet_text f evidence)
        × ((has_feed quote
              || in_some_part quote (f.surrounding_context ∷ f.code_snippet ∷ evidence ∷ []))
            ≡ true)
  unfolding triage
  triage-quotes_source f evidence h =
      let (long, found) =
        substring_ok_sound _ _ (conclude-committed f evidence (ask f evidence) h) in
      (long, occurs_in_sound _ _ found, one_line _ f evidence long found)

  -- An index of the batch holds the verdict on the finding there, with the evidence of that index.
  pub get_elem?-triage_from :
      (idx i : ℕ) (fs : List Finding) (m : List (ℕ × Text)) {f : Finding}
      → get_elem? fs i ≡ some f
      → get_elem? (triage_from ask idx fs m) i ≡ some (triage ask f (evidence_at m (i + idx)))
  unfolding triage_from
  get_elem?-triage_from idx i [] m h = cc
  get_elem?-triage_from idx zero (g ∷ fs) m h = ground arith
  get_elem?-triage_from idx (suc i) (g ∷ fs) m h =
      let e : i + suc idx ≡ suc i + idx = omega arith in
      rw e at (get_elem?-triage_from (suc idx) i fs m h)

  -- The verdict at an index of the batch is that on the finding there, with the evidence that the
  -- map holds for this index, or none.
  pub get_elem?-triage_batch :
      (i : ℕ) (fs : List Finding) (m : List (ℕ × Text)) {f : Finding}
      → get_elem? fs i ≡ some f
      → get_elem? (triage_batch ask fs m) i ≡ some (triage ask f (evidence_at m i))
  unfolding triage_batch
  get_elem?-triage_batch i fs m h =
      let e : i + 0 ≡ i = omega arith in rw e at (get_elem?-triage_from 0 i fs m h)

  pub length-triage_batch :
      (fs : List Finding) (m : List (ℕ × Text)) → length (triage_batch ask fs m) ≡ length fs
  unfolding triage_batch
  length-triage_batch fs m = from_any 0 fs
    where
      from_any : (idx : ℕ) (gs : List Finding) → length (triage_from ask idx gs m) ≡ length gs
      from_any idx [] = refl
      from_any idx (g ∷ gs) = ap suc (from_any (suc idx) gs)
