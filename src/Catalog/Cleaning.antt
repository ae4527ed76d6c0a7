-- ===== src/Catalog/Cleaning.antt =====
-- What the cleaner returns, and which entries it leaves as they are.
use audit_zoo_bug_byters.Base.{
  ℕ, ◌≡◌, refl, sym, ap, ◌∙◌, inl, inr, Bool, true, false, ◌||◌, some, List, [], ◌∷◌, ◌++◌, Text,
  ◌==◌, is_empty, All, All-append, Bool-cases, arith, append_assoc, append-nil, is_space, before,
  strip_by,
}
use audit_zoo_bug_byters.Base.Strings.Strip.{before-absent, Ends, strip_by-Ends, strip_by-snoc}
use audit_zoo_bug_byters.Catalog.{
  is_ident_start, is_ident, matches_dotted, Entry, text, other, cut, accept, clean_text,
  clean_catalog_entry,
}
use audit_zoo_bug_byters.Catalog.Grammar.{
  IsIdentifier, IsDotted, single, dotted, IsAccepted, matches_dotted_sound, matches_dotted-IsDotted,
}

accept-IsAccepted : (s : Text) {t : Text} → accept s ≡ some t → IsAccepted t
unfolding accept
accept-IsAccepted s {t} h =
    let e : s ≡ t = ground arith in
    let m : matches_dotted true s ≡ true = ground arith in rw e at (matches_dotted_sound s m)

-- Whatever the entry, what the cleaner returns is a dotted identifier, or one with a line feed
-- behind it.
pub clean_catalog_entry-IsAccepted :
    (e : Entry) {t : Text} → clean_catalog_entry e ≡ some t → IsAccepted t
unfolding clean_catalog_entry
clean_catalog_entry-IsAccepted (other s) h = absurd (cc)
clean_catalog_entry-IsAccepted (text raw) h = accept-IsAccepted _ h

-- The characters of a cleaned entry, and a line feed.
abbrev is_plain : ℕ → Bool
is_plain c = is_ident c || c == b'.' || c == 10

All-map {ℓ κ} :
    {A : Type ℓ} (P Q : A → Type κ) (xs : List A) → ((x : A) → P x → Q x) → All P xs → All Q xs
All-map P Q [] f h = tt
All-map P Q (x ∷ xs) f (h, hs) = (f x h, All-map P Q xs f hs)

abbrev IsPlain : Text → Type 0
IsPlain s = All (λ c. is_plain c ≡ true) s

before-IsPlain : (c : ℕ) (s : Text) → is_plain c ≡ false → IsPlain s → before c s ≡ s
before-IsPlain c s h p = before-absent c s (All-map _ _ s (λ d q. differs d q) p)
  where
    differs : (d : ℕ) → is_plain d ≡ true → (d == c) ≡ false
    differs d q = elim (Bool-cases (d == c)) [
      | inl same ↦ let e : d ≡ c = ground arith in absurd (cc (ap is_plain e))
      | inr apart ↦ apart
    ]

cut-IsPlain : (s : Text) → IsPlain s → cut s ≡ s
unfolding cut is_ident
cut-IsPlain s p = rw (
  before-IsPlain b'(' s refl p,
  before-IsPlain b'[' s refl p,
  before-IsPlain b'<' s refl p,
  before-IsPlain b',' s refl p,
  before-IsPlain b' ' s refl p,
  before-IsPlain 9 s refl p,
)

-- A plain text with no blank at its ends is only tried against the pattern, once dots at its ends
-- are gone.
clean_text-IsPlain :
    (s : Text) → IsPlain s → Ends is_space s → clean_text s ≡ accept (strip_by (λ c. c == b'.') s)
unfolding clean_text
clean_text-IsPlain s p e = rw (
  before-IsPlain b'#' s (unfold is_ident in refl) p,
  strip_by-Ends is_space s e,
  cut-IsPlain s p,
  strip_by-Ends is_space s e,
)

IsIdentifier-IsPlain : (s : Text) → IsIdentifier s → IsPlain s
unfolding is_ident
IsIdentifier-IsPlain [] h = absurd h
IsIdentifier-IsPlain (c ∷ s) (h, hs) = (ground arith, All-map _ _ s (λ d q. ground arith) hs)

IsDotted-IsPlain : {s : Text} → IsDotted s → IsPlain s
unfolding is_ident
IsDotted-IsPlain (single {s} i) = IsIdentifier-IsPlain s i
IsDotted-IsPlain (dotted s t i d e) =
    rw e (All-append _ s (b'.' ∷ t) (IsIdentifier-IsPlain s i) (refl, IsDotted-IsPlain d))

is_space-ident : (c : ℕ) → is_ident c ≡ true → is_space c ≡ false
unfolding is_ident is_space
is_space-ident c h = ground arith

-- The last character of a text that is not empty.
snoc_view :
    {P : ℕ → Type 0} (c : ℕ) (s : Text)
    → All P (c ∷ s)
    → (f : Text) × (d : ℕ) × (c ∷ s ≡ f ++ (d ∷ [])) × P d
snoc_view c [] (h, _) = ([], c, refl, h)
snoc_view c (d ∷ s) (_, hs) =
    let (f, e, q, r) = snoc_view d s hs in (c ∷ f, e, ap (λ t. c ∷ t) q, r)

module _ (p : ℕ → Bool) (keeps : (c : ℕ) → is_ident c ≡ true → p c ≡ false) where
  IsIdentifier-Ends : (s : Text) → IsIdentifier s → Ends p s
  IsIdentifier-Ends [] h = absurd h
  IsIdentifier-Ends (c ∷ s) (h, hs) =
      let start : is_ident c ≡ true = unfold is_ident in ground arith in
      let (f, d, q, r) = snoc_view {P = λ x. is_ident x ≡ true} c s (start, hs) in
      record {
        first = c;
        tail = s;
        front = f;
        last = d;
        from_first = refl;
        to_last = q;
        first_stays = keeps c start;
        last_stays = keeps d r;
      }

  -- The ends of a dotted identifier stay, if the test takes no character of identifiers.
  IsDotted-Ends : {s : Text} → IsDotted s → Ends p s
  IsDotted-Ends (single {s} i) = IsIdentifier-Ends s i
  IsDotted-Ends (dotted s t i d e) =
      let l = IsIdentifier-Ends s i in
      let r = IsDotted-Ends d in
      record {
        first = l.first;
        tail = l.tail ++ (b'.' ∷ t);
        front = s ++ (b'.' ∷ r.front);
        last = r.last;
        from_first = e ∙ ap (λ x. x ++ (b'.' ∷ t)) l.from_first;
        to_last =
            e
            ∙ ap (λ x. s ++ (b'.' ∷ x)) r.to_last
            ∙ sym (append_assoc s (b'.' ∷ r.front) (r.last ∷ []));
        first_stays = l.first_stays;
        last_stays = r.last_stays;
      }

abbrev is_dot : ℕ → Bool
is_dot c = c == b'.'

is_dot-ident : (c : ℕ) → is_ident c ≡ true → is_dot c ≡ false
unfolding is_ident is_ident_start
is_dot-ident c h = ground arith

accept-lem : (s : Text) → is_empty s ≡ false → matches_dotted true s ≡ true → accept s ≡ some s
unfolding accept
accept-lem s h m = rw (h, m)

is_empty-first : {p : ℕ → Bool} (s : Text) → Ends p s → is_empty s ≡ false
is_empty-first s e = rw e.from_first

-- A dotted identifier is cleaned to itself.
pub clean_catalog_entry-IsDotted : {s : Text} → IsDotted s → clean_catalog_entry (text s) ≡ some s
unfolding clean_catalog_entry
clean_catalog_entry-IsDotted {s} d =
    clean_text-IsPlain s (IsDotted-IsPlain d) (IsDotted-Ends is_space is_space-ident d)
    ∙ ap accept (strip_by-Ends is_dot s (IsDotted-Ends is_dot is_dot-ident d))
    ∙ accept-lem s (is_empty-first s (IsDotted-Ends is_dot is_dot-ident d))
        (rw append-nil at (matches_dotted-IsDotted [] d (unfold matches_dotted in refl)))

-- With a line feed and a dot behind it a dotted identifier is returned with the line feed: the
-- blanks go before the dots do.
pub clean_catalog_entry-keeps_newline :
    {s : Text}
    → IsDotted s
    → clean_catalog_entry (text (s ++ (10 ∷ b'.' ∷ []))) ≡ some (s ++ (10 ∷ []))
unfolding clean_catalog_entry
clean_catalog_entry-keeps_newline {s} d =
    let whole : s ++ (10 ∷ b'.' ∷ []) ≡ (s ++ (10 ∷ [])) ++ (b'.' ∷ []) =
      sym (append_assoc s (10 ∷ []) (b'.' ∷ [])) in
    let l = IsDotted-Ends is_space is_space-ident d in
    let r = IsDotted-Ends is_dot is_dot-ident d in
    let blank : Ends is_space (s ++ (10 ∷ b'.' ∷ [])) = record {
      first = l.first;
      tail = l.tail ++ (10 ∷ b'.' ∷ []);
      front = s ++ (10 ∷ []);
      last = b'.';
      from_first = ap (λ x. x ++ (10 ∷ b'.' ∷ [])) l.from_first;
      to_last = whole;
      first_stays = l.first_stays;
      last_stays = unfold is_space in refl;
    } in
    let dots : Ends is_dot (s ++ (10 ∷ [])) = record {
      first = r.first;
      tail = r.tail ++ (10 ∷ []);
      front = s;
      last = 10;
      from_first = ap (λ x. x ++ (10 ∷ [])) r.from_first;
      to_last = refl;
      first_stays = r.first_stays;
      last_stays = refl;
    } in
    clean_text-IsPlain (s ++ (10 ∷ b'.' ∷ []))
      (All-append _ s (10 ∷ b'.' ∷ []) (IsDotted-IsPlain d) (unfold is_ident in (refl, (refl, tt))))
      blank
    ∙ ap accept (ap (strip_by is_dot) whole ∙ strip_by-snoc is_dot (s ++ (10 ∷ [])) b'.' dots refl)
    ∙ accept-lem (s ++ (10 ∷ [])) (is_empty-first (s ++ (10 ∷ [])) dots)
        (matches_dotted-IsDotted (10 ∷ []) d (unfold matches_dotted is_ident in refl))
