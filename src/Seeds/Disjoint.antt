-- ===== src/Seeds/Disjoint.antt =====
-- How far a cleaned catalog keeps sources, sanitizers and sinks apart.
use audit_zoo_bug_byters.Base.{
  ℕ, ◌*◌, ◌≤◌, ◌≡◌, refl, inl, inr, Bool, true, false, not, ◌&&◌, ◌||◌, Option, none, some, List,
  [], ◌∷◌, ◌++◌, Text, text_eq, is_empty, starts_with, lower, strip, contains, length, All,
  append-nil, append_assoc, Bool-cases, arith, ◌==◌, if◌then◌else◌,
}
use audit_zoo_bug_byters.Base.Strings.Laws.{text_eq_refl, text_eq_sound, contains-append}
use audit_zoo_bug_byters.Seeds.{
  Drop, blacklist, strip_pattern, blacklist_reason, ancestors, sink_prefix_index, sink_set,
  disjointness_reason, first_reason, keep_source, is_some, filter_sources_from, filter_sources,
  filter_sanitizers, filter_sinks, SeedCatalog, CleanCatalog, clean_catalog,
}

-- A path that goes on with a dot behind `y` has `y` among its ancestors.
contains-ancestors :
    (read s y : Text)
    → starts_with s (y ++ (b'.' ∷ [])) ≡ true
    → contains (ancestors read s) (read ++ y) ≡ true
unfolding ancestors contains starts_with
contains-ancestors read [] [] h = cc
contains-ancestors read [] (d ∷ y) h = cc
contains-ancestors read (c ∷ s) [] h =
    let dot : (c == b'.') ≡ true = ground arith in rw (dot, append-nil read, text_eq_refl read)
contains-ancestors read (c ∷ s) (d ∷ y) h =
    let e : c ≡ d = ground arith in
    let rest : contains (ancestors (read ++ (c ∷ [])) s) (read ++ (c ∷ y)) ≡ true =
      rw append_assoc at (contains-ancestors (read ++ (c ∷ [])) s y (ground arith)) in
    rw (← e) (elim (Bool-cases (c == b'.')) [
      | inl dot ↦ rw (dot, rest) (ground arith)
      | inr other ↦ rw (other, rest)
    ])

contains-ancestors_whole : (read s : Text) → contains (ancestors read s) (read ++ s) ≡ true
unfolding ancestors contains
contains-ancestors_whole read [] = rw (append-nil read, text_eq_refl read)
contains-ancestors_whole read (c ∷ s) =
    let rest : contains (ancestors (read ++ (c ∷ [])) s) (read ++ (c ∷ s)) ≡ true =
      rw append_assoc at (contains-ancestors_whole (read ++ (c ∷ [])) s) in
    elim (Bool-cases (c == b'.')) [
      | inl dot ↦ rw (dot, rest) (ground arith)
      | inr other ↦ rw (other, rest)
    ]

-- The source's path is not empty, and an ancestor of the sink's, as a whole or up to a dot. A path that
-- is empty, as that of `.`, covers none: `_is_disjointness_violation` lets it pass.
abbrev pub covers_path : Text → Text → Bool
covers_path source sink =
    not (is_empty (strip_pattern source))
    && (text_eq (strip_pattern sink) (strip_pattern source)
        || starts_with (strip_pattern sink) (strip_pattern source ++ (b'.' ∷ [])))

-- No sink of the list is the source, or under it.
abbrev pub IsApart : List Text → Text → Type 0
IsApart [] source = Unit
IsApart (sink ∷ sinks) source = (covers_path source sink ≡ false) × IsApart sinks source

-- A path that covers a sink is in the list of the sink's ancestors.
contains-index :
    (p y : Text)
    → is_empty y ≡ false
    → (text_eq p y || starts_with p (y ++ (b'.' ∷ []))) ≡ true
    → contains (if is_empty p then [] else ancestors [] p) y ≡ true
contains-index [] [] n h = cc
contains-index [] (d ∷ y) n h = unfold text_eq starts_with in absurd (cc h)
contains-index (c ∷ p) y n h = elim (Bool-cases (text_eq (c ∷ p) y)) [
  | inl same ↦ rw (← text_eq_sound (c ∷ p) y same) (contains-ancestors_whole [] (c ∷ p))
  | inr other ↦ contains-ancestors [] (c ∷ p) y (ground arith)
]

-- The index holds every path that a sink is at or under.
IsApart-index :
    (sinks : List Text) (source : Text)
    → contains (sink_prefix_index sinks) (strip_pattern source) ≡ false
    → IsApart sinks source
unfolding sink_prefix_index
IsApart-index [] source p = tt
IsApart-index (sink ∷ sinks) source p =
    let both =
      contains-append
        (if is_empty (strip_pattern sink) then [] else ancestors [] (strip_pattern sink))
        (sink_prefix_index sinks) (strip_pattern source) in
    (
      elim (Bool-cases (covers_path source sink)) [
        | inl covered ↦
            let here =
              contains-index (strip_pattern sink) (strip_pattern source) (ground arith)
                (ground arith) in
            ground (arith, both, here)
        | inr apart ↦ apart
      ],
      IsApart-index sinks source (ground (arith, both)),
    )

-- What the loop over the sources keeps is apart from the sinks and on no blacklist.
abbrev pub IsAllowed : List Text → Text → Type 0
IsAllowed sinks source =
    (contains blacklist (lower (strip_pattern source)) ≡ false) × IsApart sinks source

first_reason-none : (o p : Option Text) → first_reason o p ≡ none → (o ≡ none) × (p ≡ none)
first_reason-none none p h = (refl, h)
first_reason-none (some r) p h = cc

blacklist_reason-none :
    (src : Text)
    → blacklist_reason src ≡ none
    → contains blacklist (lower (strip_pattern src)) ≡ false
unfolding blacklist_reason
blacklist_reason-none src h = elim (Bool-cases (contains blacklist (lower (strip_pattern src)))) [
  | inl listed ↦ absurd (cc (rw listed at h))
  | inr unlisted ↦ unlisted
]

IsApart-empty :
    (sinks : List Text) (source : Text)
    → is_empty (strip_pattern source) ≡ true
    → IsApart sinks source
IsApart-empty [] source h = tt
IsApart-empty (sink ∷ sinks) source h = (rw h, IsApart-empty sinks source h)

disjointness_reason-none :
    (sinks : List Text) (src : Text)
    → disjointness_reason src (sink_set sinks) (sink_prefix_index sinks) ≡ none
    → IsApart sinks src
unfolding disjointness_reason
disjointness_reason-none sinks src h = elim (Bool-cases (is_empty (strip_pattern src))) [
  | inl nothing ↦ IsApart-empty sinks src nothing
  | inr path ↦ IsApart-index sinks src (ground arith)
]

IsAllowed-reason :
    (sinks : List Text) (src : Text)
    → first_reason
        (blacklist_reason src)
        (disjointness_reason src (sink_set sinks) (sink_prefix_index sinks))
      ≡ none
    → IsAllowed sinks src
IsAllowed-reason sinks src h =
    let (unlisted, apart) = first_reason-none (blacklist_reason src) _ h in
    (blacklist_reason-none src unlisted, disjointness_reason-none sinks src apart)

keep_source-All :
    (sinks : List Text) (src : Text) (reason : Option Text) (seen : Bool)
    (r : List Text × List Drop)
    → (reason ≡ none → IsAllowed sinks src)
    → All (IsAllowed sinks) r.0
    → All (IsAllowed sinks) (keep_source src reason seen r).0
unfolding keep_source
keep_source-All sinks src (some why) seen r h a = a
keep_source-All sinks src none true r h a = a
keep_source-All sinks src none false r h a = (h refl, a)

filter_sources_from-All :
    (sinks seen : List Text) (sources : List (Option Text))
    → All
        (IsAllowed sinks)
        (filter_sources_from (sink_set sinks) (sink_prefix_index sinks) seen sources).0
unfolding filter_sources_from
filter_sources_from-All sinks seen [] = tt
filter_sources_from-All sinks seen (none ∷ sources) = filter_sources_from-All sinks seen sources
filter_sources_from-All sinks seen (some src ∷ sources) =
    let reason =
      first_reason (blacklist_reason src)
        (disjointness_reason src (sink_set sinks) (sink_prefix_index sinks)) in
    let skipped = filter_sources_from-All sinks seen sources in
    let taken = filter_sources_from-All sinks (strip_pattern src ∷ seen) sources in
    elim (Bool-cases (is_empty (strip src))) [
      | inl blank ↦ rw blank skipped
      | inr named ↦
          rw named (elim (Bool-cases (is_some reason || contains seen (strip_pattern src))) [
            | inl old ↦
                rw old (keep_source-All sinks src reason _ _ (IsAllowed-reason sinks src) skipped)
            | inr new ↦
                rw new (keep_source-All sinks src reason _ _ (IsAllowed-reason sinks src) taken)
          ])
    ]

filter_sanitizers-All :
    (entries : List (Option Text)) (sinks : List Text)
    → All
        (λ e. contains (sink_set sinks) (strip_pattern e) ≡ false)
        (filter_sanitizers entries sinks).0
unfolding filter_sanitizers
filter_sanitizers-All [] sinks = tt
filter_sanitizers-All (none ∷ entries) sinks = filter_sanitizers-All entries sinks
filter_sanitizers-All (some entry ∷ entries) sinks = elim (Bool-cases (is_empty (strip entry))) [
  | inl blank ↦ rw blank (filter_sanitizers-All entries sinks)
  | inr named ↦ elim (Bool-cases (contains (sink_set sinks) (strip_pattern entry))) [
    | inl sink ↦ rw (named, sink) (filter_sanitizers-All entries sinks)
    | inr apart ↦ rw (named, apart) (apart, filter_sanitizers-All entries sinks)
  ]
]

unless-some :
    (b : Bool) (r c : CleanCatalog) → (if b then none else some r) ≡ some c → (b ≡ false) × (r ≡ c)
unless-some true r c h = cc
unless-some false r c h = (refl, cc)

-- Each entry is taken without blanks and leading dots. A cleaned catalog keeps no source that is, in
-- lower case, on the blacklist, no source that is not empty and is one of the kept sinks or a dotted
-- ancestor of one, and no sanitizer that is one of the kept sinks. The dropped sources are at most the
-- allowed share.
pub clean_catalog-IsAllowed :
    (num den : ℕ) (payload : SeedCatalog) {c : CleanCatalog}
    → clean_catalog num den payload ≡ some c
    → All (IsAllowed c.sinks) c.sources
      × All (λ e. contains (sink_set c.sinks) (strip_pattern e) ≡ false) c.sanitizers
      × (length c.dropped_sources * den ≤ num * length payload.sources)
unfolding clean_catalog filter_sources
clean_catalog-IsAllowed num den payload {c} h =
    let sinks = (filter_sinks payload.sinks).0 in
    let (small, e) = unless-some _ _ c h in
    rw (← e) (
      filter_sources_from-All sinks [] payload.sources,
      filter_sanitizers-All payload.sanitizers sinks,
      ground arith,
    )
