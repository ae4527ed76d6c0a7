-- ===== src/Tests/SeedFilters.antt =====
-- Runs of the filters of a seed catalog.
use audit_zoo_bug_byters.Base.{
  ◌*◌, ◌≤◌, ◌≡◌, refl, false, none, some, [], ◌∷◌, codes, length, All, contains, occurs_in, text_eq,
  starts_with, is_space, drop_while, strip_by, strip, lower, lower_char,
}
use audit_zoo_bug_byters.Seeds.{
  strip_pattern, blacklist_reason, ancestors, sink_prefix_index, sink_set, disjointness_reason,
  keep_source, filter_sources_from, filter_sources, filter_sanitizers, filter_sinks, SeedCatalog,
  CleanCatalog, clean_catalog,
}
use audit_zoo_bug_byters.Seeds.Disjoint.{IsAllowed, clean_catalog-IsAllowed}

abbrev payload : SeedCatalog
payload = record {
  sources = some (codes "Popen") ∷ some (codes "os") ∷ some (codes "request.args") ∷ none ∷ [];
  sinks = some (codes "os.system") ∷ some (codes "shell") ∷ [];
  sanitizers = some (codes "shlex.quote") ∷ some (codes ".os.system") ∷ [];
}

abbrev kept : CleanCatalog
kept = record {
  sources = codes "request.args" ∷ [];
  sinks = codes "os.system" ∷ [];
  sanitizers = codes "shlex.quote" ∷ [];
  dropped_sources =
      (codes "Popen", codes "blacklist-exact:popen")
      ∷ (codes "os", codes "disjointness:source-is-prefix-of-sink")
      ∷ [];
  dropped_sinks = (codes "shell", codes "non-api-token-as-sink") ∷ [];
  dropped_sanitizers = (codes ".os.system", codes "sanitizer-equals-sink") ∷ [];
}

clean_payload : clean_catalog 1 2 payload ≡ some kept
unfolding clean_catalog filter_sinks filter_sources filter_sources_from filter_sanitizers
    keep_source disjointness_reason blacklist_reason sink_set sink_prefix_index ancestors
    strip_pattern contains occurs_in text_eq starts_with strip strip_by drop_while is_space lower
    lower_char
clean_payload = refl

clean_catalog-IsAllowed_example :
    All (IsAllowed kept.sinks) kept.sources
    × All (λ e. contains (sink_set kept.sinks) (strip_pattern e) ≡ false) kept.sanitizers
    × (length kept.dropped_sources * 2 ≤ 1 * length payload.sources)
clean_catalog-IsAllowed_example = clean_catalog-IsAllowed 1 2 payload clean_payload
