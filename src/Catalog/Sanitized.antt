-- ===== src/Catalog/Sanitized.antt =====
-- What `sanitize_catalog` keeps and drops.
use audit_zoo_bug_byters.Base.{
  ◌≡◌, refl, sym, ap, ◌∙◌, inl, inr, false, ◌||◌, Option, none, some, List, [], ◌∷◌, ◌++◌, Text,
  All, All-append, Bool-cases, arith, append_assoc, append-nil, contains, text_eq, map,
  if◌then◌else◌,
}
use audit_zoo_bug_byters.Base.Strings.Laws.{text_eq_refl, text_eq_sound, contains-append}
use audit_zoo_bug_byters.Catalog.{
  Entry, text, shown, clean_catalog_entry, keep_or_drop, sanitize_loop, sanitize_catalog,
}
use audit_zoo_bug_byters.Catalog.Grammar.{IsDotted, IsAccepted}
use audit_zoo_bug_byters.Catalog.Cleaning.{
  clean_catalog_entry-IsAccepted, clean_catalog_entry-IsDotted,
}

-- No text is listed twice: none occurs in what stands before it.
abbrev pub NodupText : List Text → Type 0
NodupText [] = Unit
NodupText (x ∷ xs) = (contains xs x ≡ false) × NodupText xs

contains-snoc :
    (xs : List Text) (t x : Text) → contains (xs ++ (t ∷ [])) x ≡ (contains xs x || text_eq t x)
contains-snoc xs t x = contains-append xs (t ∷ []) x ∙ (unfold contains in ground arith)

pub NodupText-snoc :
    (xs : List Text) (t : Text) → contains xs t ≡ false → NodupText xs → NodupText (xs ++ (t ∷ []))
unfolding contains
NodupText-snoc [] t h u = (refl, tt)
NodupText-snoc (x ∷ xs) t h (fresh, u) =
    let apart : text_eq x t ≡ false = ground arith in
    let other_way : text_eq t x ≡ false = elim (Bool-cases (text_eq t x)) [
      | inl e ↦ absurd (cc (text_eq_refl t, ap (λ y. text_eq y t) (text_eq_sound t x e)))
      | inr e ↦ e
    ] in
    (rw contains-snoc (rw (fresh, other_way)), NodupText-snoc xs t (ground arith) u)

abbrev cons_some : Option Text → List Text → List Text
cons_some none ts = ts
cons_some (some t) ts = t ∷ ts

abbrev cons_none : Option Text → Text → List Text → List Text
cons_none none s ss = s ∷ ss
cons_none (some t) s ss = ss

-- The cleaned forms of the entries, in order, and the entries that have none.
abbrev pub cleaned : List Entry → List Text
cleaned [] = []
cleaned (e ∷ es) = cons_some (clean_catalog_entry e) (cleaned es)

abbrev pub refused : List Entry → List Text
refused [] = []
refused (e ∷ es) = cons_none (clean_catalog_entry e) (shown e) (refused es)

-- The result of the loop from what it was started with.
record IsSanitized (s : List Text × List Text) (es : List Entry) (r : List Text × List Text)
    : Type 0 where
  distinct : NodupText r.0
  accepted : All IsAccepted r.0
  same : (x : Text) → contains r.0 x ≡ (contains s.0 x || contains (cleaned es) x)
  turned_away : r.1 ≡ s.1 ++ refused es

pub contains-one : (t x : Text) → contains (t ∷ []) x ≡ text_eq t x
unfolding contains
contains-one t x = ground arith

contains-kept :
    (kept : List Text) (t x : Text)
    → contains (if contains kept t then kept else kept ++ (t ∷ [])) x
      ≡ (contains kept x || text_eq t x)
contains-kept kept t x = elim (Bool-cases (contains kept t)) [
  | inl old ↦ rw old (elim (Bool-cases (text_eq t x)) [
    | inl same ↦ ground (arith, ap (contains kept) (text_eq_sound t x same))
    | inr apart ↦ ground arith
  ])
  | inr new ↦ rw new (contains-snoc kept t x)
]

kept-IsClean :
    (kept : List Text) (t : Text)
    → IsAccepted t
    → NodupText kept
    → All IsAccepted kept
    → NodupText (if contains kept t then kept else kept ++ (t ∷ []))
      × All IsAccepted (if contains kept t then kept else kept ++ (t ∷ []))
kept-IsClean kept t h u a = elim (Bool-cases (contains kept t)) [
  | inl old ↦ rw old (u, a)
  | inr new ↦ rw new (NodupText-snoc kept t new u, All-append IsAccepted kept (t ∷ []) a (h, tt))
]

-- What one round of the loop does, for an entry with the cleaned form `o`.
record IsKept (s : List Text × List Text) (e : Entry) (o : Option Text) (r : List Text × List Text)
    : Type 0 where
  distinct : NodupText r.0
  accepted : All IsAccepted r.0
  same : (x : Text) → contains r.0 x ≡ (contains s.0 x || contains (cons_some o []) x)
  turned_away : r.1 ≡ s.1 ++ cons_none o (shown e) []

keep_or_drop-IsKept :
    (s : List Text × List Text) (e : Entry) (o : Option Text)
    → clean_catalog_entry e ≡ o
    → NodupText s.0
    → All IsAccepted s.0
    → IsKept s e o (keep_or_drop s e o)
unfolding keep_or_drop
keep_or_drop-IsKept (kept, dropped) e none h u a = record {
  distinct = u;
  accepted = a;
  same = λ x. unfold contains in ground arith;
  turned_away = refl;
}
keep_or_drop-IsKept (kept, dropped) e (some t) h u a =
    let (u', a') = kept-IsClean kept t (clean_catalog_entry-IsAccepted e h) u a in
    record {
      distinct = u';
      accepted = a';
      same = λ x. contains-kept kept t x ∙ ap (λ b. contains kept x || b) (sym (contains-one t x));
      turned_away = sym (append-nil dropped);
    }

cons_some-append : (o : Option Text) (ts : List Text) → cons_some o ts ≡ cons_some o [] ++ ts
cons_some-append none ts = refl
cons_some-append (some t) ts = refl

cons_none-append :
    (o : Option Text) (s : Text) (ss : List Text) → cons_none o s ss ≡ cons_none o s [] ++ ss
cons_none-append none s ss = refl
cons_none-append (some t) s ss = refl

sanitize_loop-IsSanitized :
    (s : List Text × List Text) (es : List Entry)
    → NodupText s.0
    → All IsAccepted s.0
    → IsSanitized s es (sanitize_loop s es)
unfolding sanitize_loop
sanitize_loop-IsSanitized s [] u a = record {
  distinct = u;
  accepted = a;
  same = λ x. unfold contains in ground arith;
  turned_away = sym (append-nil s.1);
}
sanitize_loop-IsSanitized s (e ∷ es) u a =
    let o = clean_catalog_entry e in
    let k = keep_or_drop-IsKept s e o refl u a in
    let r = sanitize_loop-IsSanitized (keep_or_drop s e o) es k.distinct k.accepted in
    record {
      distinct = r.distinct;
      accepted = r.accepted;
      same = λ x. ground (
        arith,
        r.same x,
        k.same x,
        ap (λ l. contains l x) (cons_some-append o (cleaned es)),
        contains-append (cons_some o []) (cleaned es) x,
      );
      turned_away =
          r.turned_away
          ∙ ap (λ l. l ++ refused es) k.turned_away
          ∙ append_assoc s.1 (cons_none o (shown e) []) (refused es)
          ∙ ap (λ l. s.1 ++ l) (sym (cons_none-append o (shown e) (refused es)));
    }

-- `sanitize_catalog` keeps no text twice; each kept text is a dotted identifier, or one with a line
-- feed behind it; a text is kept exactly if it is the cleaned form of some entry; and what is
-- dropped is, in order, every entry that has no cleaned form, as it was given.
pub sanitize_catalog_lem :
    (es : List Entry)
    → NodupText (sanitize_catalog es).0
      × All IsAccepted (sanitize_catalog es).0
      × ((x : Text) → contains (sanitize_catalog es).0 x ≡ contains (cleaned es) x)
      × ((sanitize_catalog es).1 ≡ refused es)
unfolding sanitize_catalog
sanitize_catalog_lem es =
    let r = sanitize_loop-IsSanitized ([], []) es tt tt in
    (r.distinct, r.accepted, λ x. unfold contains in r.same x, r.turned_away)

text_eq-apart : (a x : Text) → text_eq a x ≡ false → text_eq x a ≡ false
text_eq-apart a x h = elim (Bool-cases (text_eq x a)) [
  | inl e ↦ absurd (cc (h, text_eq_refl x, ap (λ y. text_eq y x) (text_eq_sound x a e)))
  | inr e ↦ e
]

NodupText-middle :
    (acc : List Text) (x : Text) (xs : List Text)
    → NodupText (acc ++ (x ∷ xs))
    → contains acc x ≡ false
unfolding contains
NodupText-middle [] x xs u = refl
NodupText-middle (a ∷ acc) x xs (fresh, u) =
    let apart : text_eq x a ≡ false = ground (arith, contains-append acc (x ∷ xs) a) in
    ground (arith, NodupText-middle acc x xs u, text_eq-apart x a apart)

keep-IsDotted :
    (acc : List Text) (x : Text)
    → IsDotted x
    → contains acc x ≡ false
    → keep_or_drop (acc, []) (text x) (clean_catalog_entry (text x)) ≡ (acc ++ (x ∷ []), [])
unfolding keep_or_drop
keep-IsDotted acc x d fresh =
    ap (keep_or_drop (acc, []) (text x)) (clean_catalog_entry-IsDotted d) ∙ rw fresh

sanitize_loop-fixed :
    (acc xs : List Text)
    → All IsDotted xs
    → NodupText (acc ++ xs)
    → sanitize_loop (acc, []) (map text xs) ≡ (acc ++ xs, [])
unfolding sanitize_loop
sanitize_loop-fixed acc [] d u = rw append-nil
sanitize_loop-fixed acc (x ∷ xs) (d, ds) u =
    let regroup : (acc ++ (x ∷ [])) ++ xs ≡ acc ++ (x ∷ xs) = append_assoc acc (x ∷ []) xs in
    ap (λ s. sanitize_loop s (map text xs)) (keep-IsDotted acc x d (NodupText-middle acc x xs u))
    ∙ sanitize_loop-fixed (acc ++ (x ∷ [])) xs ds (rw regroup u)
    ∙ ap (λ l. (l, [])) regroup

-- Dotted identifiers without repetition are kept as they are, and nothing is dropped: cleaning a
-- clean catalog again changes nothing.
pub sanitize_catalog-fixed :
    (xs : List Text) → All IsDotted xs → NodupText xs → sanitize_catalog (map text xs) ≡ (xs, [])
unfolding sanitize_catalog
sanitize_catalog-fixed xs d u = sanitize_loop-fixed [] xs d u
