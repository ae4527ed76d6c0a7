-- ===== src/Joern/Catalogs.antt =====
-- The catalogs of the arm under expansion.
use audit_zoo_bug_byters.Base.{
  ◌≡◌, refl, sym, ap, ◌∙◌, inl, inr, true, ◌||◌, List, [], ◌∷◌, ◌++◌, Text, All, All-append,
  Bool-cases, arith, append_assoc, append-nil, contains, text_eq, map,
}
use audit_zoo_bug_byters.Base.Strings.Laws.{text_eq_sound, contains-append}
use audit_zoo_bug_byters.Catalog.{Entry, text, sanitize_catalog}
use audit_zoo_bug_byters.Catalog.Grammar.{IsAccepted}
use audit_zoo_bug_byters.Catalog.Sanitized.{
  NodupText, NodupText-snoc, contains-one, cleaned, sanitize_catalog_lem,
}
use audit_zoo_bug_byters.Joern.{
  JoernArm, create, add_missing, expand_sources, expand_sinks, expand_sanitizers,
}

-- A catalog without repetition, of texts that the cleaner can return.
pub record IsClean (xs : List Text) : Type 0 where
  pub distinct : NodupText xs
  pub accepted : All IsAccepted xs

pub record ArmIsClean (arm : JoernArm) : Type 0 where
  pub sources : IsClean arm.sources
  pub sinks : IsClean arm.sinks
  pub sanitizers : IsClean arm.sanitizers

sanitize_catalog-IsClean : (es : List Entry) → IsClean (sanitize_catalog es).0
sanitize_catalog-IsClean es =
    let l = sanitize_catalog_lem es in record { distinct = l.0; accepted = l.1 }

-- What `add_missing` makes of a clean list: a clean list that begins with the old one, and holds
-- the new texts too and no other.
record Grown (known new grown : List Text) : Type 0 where
  clean : IsClean grown
  added : List Text
  begins : grown ≡ known ++ added
  holds : (x : Text) → contains grown x ≡ (contains known x || contains new x)

grown_new :
    (known : List Text) (s : Text) (new : List Text) (x : Text)
    → (contains (known ++ (s ∷ [])) x || contains new x)
      ≡ (contains known x || contains (s ∷ new) x)
grown_new known s new x =
    ground
      (arith, contains-append known (s ∷ []) x, contains-one s x, contains-append (s ∷ []) new x)

grown_old :
    (known : List Text) (s : Text) (new : List Text) (x : Text)
    → contains known s ≡ true
    → (contains known x || contains new x) ≡ (contains known x || contains (s ∷ new) x)
grown_old known s new x old = elim (Bool-cases (text_eq s x)) [
  | inl same ↦ ground (arith, ap (contains known) (text_eq_sound s x same))
  | inr apart ↦ ground (arith, contains-one s x, contains-append (s ∷ []) new x)
]

add_missing-Grown :
    (known new : List Text)
    → IsClean known
    → All IsAccepted new
    → Grown known new (add_missing known new)
unfolding add_missing
add_missing-Grown known [] c a = record {
  clean = c;
  added = [];
  begins = sym (append-nil known);
  holds = λ x. unfold contains in ground arith;
}
add_missing-Grown known (s ∷ new) c (h, a) = elim (Bool-cases (contains known s)) [
  | inl old ↦
      let g = add_missing-Grown known new c a in
      rw old (record {
        clean = g.clean;
        added = g.added;
        begins = g.begins;
        holds = λ x. g.holds x ∙ grown_old known s new x old;
      })
  | inr fresh ↦
      let c' : IsClean (known ++ (s ∷ [])) = record {
        distinct = NodupText-snoc known s fresh c.distinct;
        accepted = All-append IsAccepted known (s ∷ []) c.accepted (h, tt);
      } in
      let g = add_missing-Grown (known ++ (s ∷ [])) new c' a in
      rw fresh (record {
        clean = g.clean;
        added = s ∷ g.added;
        begins = g.begins ∙ append_assoc known (s ∷ []) g.added;
        holds = λ x. g.holds x ∙ grown_new known s new x;
      })
]

-- The texts that an expansion by `new` can add.
abbrev pub cleaned_texts : List Text → List Text
cleaned_texts new = cleaned (map text new)

-- What an expansion promises of one catalog.
pub record IsExpanded (known new grown : List Text) : Type 0 where
  pub clean : IsClean grown
  pub added : List Text
  pub begins : grown ≡ known ++ added
  pub holds : (x : Text) → contains grown x ≡ (contains known x || contains (cleaned_texts new) x)

expand-IsExpanded :
    (known new : List Text)
    → IsClean known
    → IsExpanded known new (add_missing known (sanitize_catalog (map text new)).0)
expand-IsExpanded known new c =
    let l = sanitize_catalog_lem (map text new) in
    let g = add_missing-Grown known (sanitize_catalog (map text new)).0 c l.1 in
    record {
      clean = g.clean;
      added = g.added;
      begins = g.begins;
      holds = λ x. g.holds x ∙ ap (λ b. contains known x || b) (l.2 x);
    }

-- A new arm has clean catalogs, whatever it is given.
pub create-ArmIsClean :
    (sources sinks sanitizers : List Entry) → ArmIsClean (create sources sinks sanitizers)
unfolding create
create-ArmIsClean sources sinks sanitizers = record {
  sources = sanitize_catalog-IsClean sources;
  sinks = sanitize_catalog-IsClean sinks;
  sanitizers = sanitize_catalog-IsClean sanitizers;
}

-- In an arm with clean catalogs, expanding the sources leaves the sinks and the sanitizers alone,
-- and the sources stay clean, begin with the old sources, and hold besides them exactly the cleaned
-- forms of the new texts. Expanding the sinks or the sanitizers does the like.
pub expand_all :
    (arm : JoernArm) (new : List Text)
    → ArmIsClean arm
    → (IsExpanded arm.sources new (expand_sources arm new).sources
        × ((expand_sources arm new).sinks ≡ arm.sinks)
        × ((expand_sources arm new).sanitizers ≡ arm.sanitizers))
      × (IsExpanded arm.sinks new (expand_sinks arm new).sinks
          × ((expand_sinks arm new).sources ≡ arm.sources)
          × ((expand_sinks arm new).sanitizers ≡ arm.sanitizers))
      × (IsExpanded arm.sanitizers new (expand_sanitizers arm new).sanitizers
          × ((expand_sanitizers arm new).sources ≡ arm.sources)
          × ((expand_sanitizers arm new).sinks ≡ arm.sinks))
unfolding expand_sources expand_sinks expand_sanitizers
expand_all arm new c = (
  (expand-IsExpanded arm.sources new c.sources, refl, refl),
  (expand-IsExpanded arm.sinks new c.sinks, refl, refl),
  (expand-IsExpanded arm.sanitizers new c.sanitizers, refl, refl),
)
