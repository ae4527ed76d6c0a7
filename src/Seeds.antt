-- ===== src/Seeds.antt =====
-- splitEvaluations/clean_seed_catalog.py: the filters of a seed catalog. The metadata of the result
-- are counts and dropped entries; its time stamp and the entries of other keys are left out.
pub mod Disjoint
use audit_zoo_bug_byters.Base.{
  ℕ, suc, zero, ◌+◌, ◌*◌, Bool, true, false, not, ◌&&◌, ◌||◌, Option, none, some, List, [], ◌∷◌,
  ◌++◌, Text, codes, text_eq, is_empty, strip, drop_while, lower, contains, occurs_in, length, ltb,
  ◌==◌, if◌then◌else◌,
}

-- A record of `dropped`: the pattern and the reason.
abbrev pub Drop : Type 0
Drop = Text × Text

-- `_SINK_TOKEN_BLACKLIST`
abbrev pub blacklist : List Text
blacklist =
    codes "shell"
    ∷ codes "subprocess"
    ∷ codes "popen"
    ∷ codes "system"
    ∷ codes "exec"
    ∷ codes "eval"
    ∷ codes "popen.communicate"
    ∷ codes "popen.stdout.read"
    ∷ codes "popen.stderr.read"
    ∷ []

-- `_strip_pattern`
unfoldable pub strip_pattern : Text → Text
strip_pattern p = drop_while (λ c. c == b'.') (strip p)

-- `_is_blacklisted_source`: the reason, where the source is dropped. No token is empty.
unfoldable pub blacklist_reason : Text → Option Text
unfolding strip_pattern
blacklist_reason p =
    let normalized = lower (strip_pattern p) in
    if contains blacklist normalized then some (codes "blacklist-exact:" ++ normalized) else none

-- The dotted ancestors of a path, behind the part `read` of it.
unfoldable pub ancestors : Text → Text → List Text
ancestors read [] = read ∷ []
ancestors read (c ∷ s) =
    let rest = ancestors (read ++ (c ∷ [])) s in if c == b'.' then read ∷ rest else rest

-- `_build_sink_prefix_index`
unfoldable pub sink_prefix_index : List Text → List Text
unfolding strip_pattern ancestors
sink_prefix_index [] = []
sink_prefix_index (sink ∷ sinks) =
    (if is_empty (strip_pattern sink) then [] else ancestors [] (strip_pattern sink))
    ++ sink_prefix_index sinks

-- `{_strip_pattern(s) for s in sinks if s}`
unfoldable pub sink_set : List Text → List Text
unfolding strip_pattern
sink_set [] = []
sink_set (sink ∷ sinks) = (if is_empty sink then [] else strip_pattern sink ∷ []) ++ sink_set sinks

-- `_is_disjointness_violation`
unfoldable pub disjointness_reason : Text → List Text → List Text → Option Text
unfolding strip_pattern
disjointness_reason source set prefixes =
    if is_empty (strip_pattern source)
    then none
    else if contains set (strip_pattern source)
    then some (codes "disjointness:source-equals-sink")
    else if contains prefixes (strip_pattern source)
    then some (codes "disjointness:source-is-prefix-of-sink")
    else none

abbrev pub first_reason : Option Text → Option Text → Option Text
first_reason (some r) other = some r
first_reason none other = other

-- The rest of the loop's body for one source, given the reason to drop it, if any, and whether its
-- normalised form was kept before.
unfoldable pub keep_source :
    Text → Option Text → Bool → List Text × List Drop → List Text × List Drop
keep_source src (some reason) seen (kept, dropped) = (kept, (src, reason) ∷ dropped)
keep_source src none true (kept, dropped) = (kept, dropped)
keep_source src none false (kept, dropped) = (src ∷ kept, dropped)

abbrev pub is_some : Option Text → Bool
is_some none = false
is_some (some r) = true

-- The loop of `_filter_sources`, with `seen_kept`. A value that is no string is `none`.
unfoldable pub filter_sources_from :
    List Text → List Text → List Text → List (Option Text) → List Text × List Drop
unfolding keep_source
filter_sources_from set prefixes seen [] = ([], [])
filter_sources_from set prefixes seen (none ∷ sources) =
    filter_sources_from set prefixes seen sources
filter_sources_from set prefixes seen (some src ∷ sources) =
    let reason = first_reason (blacklist_reason src) (disjointness_reason src set prefixes) in
    let known = contains seen (strip_pattern src) in
    let skipped = filter_sources_from set prefixes seen sources in
    let taken = filter_sources_from set prefixes (strip_pattern src ∷ seen) sources in
    if is_empty (strip src)
    then skipped
    else keep_source src reason known (if is_some reason || known then skipped else taken)

-- `_filter_sources`
unfoldable pub filter_sources : List (Option Text) → List Text → List Text × List Drop
unfolding filter_sources_from sink_set sink_prefix_index
filter_sources sources sinks =
    filter_sources_from (sink_set sinks) (sink_prefix_index sinks) [] sources

-- `_filter_sanitizers`
unfoldable pub filter_sanitizers : List (Option Text) → List Text → List Text × List Drop
unfolding sink_set
filter_sanitizers [] sinks = ([], [])
filter_sanitizers (none ∷ entries) sinks = filter_sanitizers entries sinks
filter_sanitizers (some entry ∷ entries) sinks =
    let (kept, dropped) = filter_sanitizers entries sinks in
    if is_empty (strip entry)
    then (kept, dropped)
    else if contains (sink_set sinks) (strip_pattern entry)
    then (kept, (entry, codes "sanitizer-equals-sink") ∷ dropped)
    else (entry ∷ kept, dropped)

-- The tokens of `_filter_sinks`; none has a dot, so that its second test never fails.
abbrev pub tokens : List Text
tokens = codes "shell" ∷ codes "exec" ∷ codes "eval" ∷ codes "system" ∷ []

-- `_filter_sinks`
unfoldable pub filter_sinks : List (Option Text) → List Text × List Drop
unfolding strip_pattern
filter_sinks [] = ([], [])
filter_sinks (none ∷ sinks) = filter_sinks sinks
filter_sinks (some sink ∷ sinks) =
    let (kept, dropped) = filter_sinks sinks in
    let normalized = lower (strip_pattern sink) in
    if is_empty (strip sink)
    then (kept, dropped)
    else if contains tokens normalized && not (occurs_in (codes ".") normalized)
    then (kept, (sink, codes "non-api-token-as-sink") ∷ dropped)
    else (sink ∷ kept, dropped)

pub record SeedCatalog : Type 0 where
  pub sources : List (Option Text)
  pub sinks : List (Option Text)
  pub sanitizers : List (Option Text)

pub record CleanCatalog : Type 0 where
  pub sources : List Text
  pub sinks : List Text
  pub sanitizers : List Text
  pub dropped_sources : List Drop
  pub dropped_sinks : List Drop
  pub dropped_sanitizers : List Drop

-- `clean_catalog` of a JSON object, where the bound on the share of dropped sources is the fraction
-- `num / den` with `den` above 0, and shares are compared exactly, not as floats. `none` is the
-- `ValueError` of a share above the bound.
unfoldable pub clean_catalog : ℕ → ℕ → SeedCatalog → Option CleanCatalog
unfolding filter_sinks filter_sources filter_sanitizers
clean_catalog num den payload =
    let sinks = filter_sinks payload.sinks in
    let sources = filter_sources payload.sources sinks.0 in
    let sanitizers = filter_sanitizers payload.sanitizers sinks.0 in
    if ltb (num * length payload.sources) (length sources.1 * den)
    then none
    else some (record {
      sources = sources.0;
      sinks = sinks.0;
      sanitizers = sanitizers.0;
      dropped_sources = sources.1;
      dropped_sinks = sinks.1;
      dropped_sanitizers = sanitizers.1;
    })
