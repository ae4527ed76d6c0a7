-- ===== src/Tests/Catalogs.antt =====
-- Runs of the cleaner of catalogs and of the Joern arm.
use audit_zoo_bug_byters.Base.{
  ◌≤◌, ◌≡◌, refl, Option, none, some, List, [], ◌∷◌, pos, Text, codes, length, All, contains,
  is_space, drop_while, strip_by, strip, before,
}
use audit_zoo_bug_byters.Schemas.{JoernRecord}
use audit_zoo_bug_byters.Catalog.{
  Entry, text, other, is_ident_start, is_ident, cut, accept, clean_text, clean_catalog_entry,
  matches_dotted, sanitize_catalog,
}
use audit_zoo_bug_byters.Catalog.Grammar.{IsDotted, single, dotted, IsAccepted}
use audit_zoo_bug_byters.Catalog.Sanitized.{NodupText, cleaned, refused, sanitize_catalog_lem}
use audit_zoo_bug_byters.Joern.{JoernArm, expand_sources, expand_sinks, expand_sanitizers}
use audit_zoo_bug_byters.Joern.Catalogs.{ArmIsClean, IsExpanded, expand_all}
use audit_zoo_bug_byters.Joern.Records.{key_of, parse_taint_results}
use audit_zoo_bug_byters.Joern.Tables.{
  DistinctSinks, parse_taint_results-DistinctSinks, total_count, total_count-parse_taint_results,
}
use audit_zoo_bug_byters.Joern.Strength.{strength_of, strongest, strength_of-parse_taint_results}

abbrev os_system : Text
os_system = codes "os.system"

os_system-IsDotted : IsDotted os_system
unfolding is_ident is_ident_start
os_system-IsDotted =
    dotted (codes "os") (codes "system") (refl, (refl, tt))
      (single (refl, (refl, (refl, (refl, (refl, (refl, tt))))))) refl

abbrev a_call : Entry
a_call = text (codes " a.b(x) # note")

a_call-cleaned : clean_catalog_entry a_call ≡ some (codes "a.b")
unfolding clean_catalog_entry clean_text cut accept before strip strip_by drop_while is_space
    matches_dotted is_ident is_ident_start
a_call-cleaned = refl

abbrev mixed_entries : List Entry
mixed_entries = a_call ∷ other (codes "7") ∷ text (codes "a.b") ∷ text (codes "a b-") ∷ []

sanitize_catalog_lem_example :
    NodupText (sanitize_catalog mixed_entries).0
    × All IsAccepted (sanitize_catalog mixed_entries).0
    × ((x : Text)
        → contains (sanitize_catalog mixed_entries).0 x ≡ contains (cleaned mixed_entries) x)
    × ((sanitize_catalog mixed_entries).1 ≡ refused mixed_entries)
sanitize_catalog_lem_example = sanitize_catalog_lem mixed_entries

abbrev pub empty_arm : JoernArm
empty_arm = record { sources = []; sinks = os_system ∷ []; sanitizers = [] }

pub empty_arm-ArmIsClean : ArmIsClean empty_arm
unfolding contains
empty_arm-ArmIsClean = record {
  sources = record { distinct = tt; accepted = tt };
  sinks = record { distinct = (refl, tt); accepted = (IsAccepted.plain os_system-IsDotted, tt) };
  sanitizers = record { distinct = tt; accepted = tt };
}

abbrev new_names : List Text
new_names = codes "a.b" ∷ codes "os.system()" ∷ []

expand_all_example :
    (IsExpanded [] new_names (expand_sources empty_arm new_names).sources
      × ((expand_sources empty_arm new_names).sinks ≡ os_system ∷ [])
      × ((expand_sources empty_arm new_names).sanitizers ≡ []))
    × (IsExpanded (os_system ∷ []) new_names (expand_sinks empty_arm new_names).sinks
        × ((expand_sinks empty_arm new_names).sources ≡ [])
        × ((expand_sinks empty_arm new_names).sanitizers ≡ []))
    × (IsExpanded [] new_names (expand_sanitizers empty_arm new_names).sanitizers
        × ((expand_sanitizers empty_arm new_names).sources ≡ [])
        × ((expand_sanitizers empty_arm new_names).sinks ≡ os_system ∷ []))
expand_all_example = expand_all empty_arm new_names empty_arm-ArmIsClean

abbrev direct_record : JoernRecord
direct_record = record {
  sink_file = codes "run.py";
  sink_line = record { shown = codes "10"; parsed = some (pos 10) };
  sink_name = codes "system";
  sink_code = codes "system( cmd )";
  source_file = [];
  source_line = record { shown = []; parsed = none };
  source_code = [];
  recovery_kind = some (codes "direct_sink");
}

-- The same sink, with other white space and a stronger kind.
abbrev taint_record : JoernRecord
taint_record = record direct_record {
  sink_code = codes "system(  cmd )";
  source_code = codes "argv";
  recovery_kind = none;
}

abbrev pub records : List (Option JoernRecord)
records = some direct_record ∷ none ∷ some taint_record ∷ []

parse_taint_results-DistinctSinks_example :
    DistinctSinks (parse_taint_results (some records))
    × All (λ f. length f.metadata.dedup_sources ≤ 8) (parse_taint_results (some records))
parse_taint_results-DistinctSinks_example = parse_taint_results-DistinctSinks records

total_count-parse_taint_results_example : total_count (parse_taint_results (some records)) ≡ 2
total_count-parse_taint_results_example = total_count-parse_taint_results records

strength_of-parse_taint_results_example :
    strength_of (parse_taint_results (some records)) (key_of taint_record)
    ≡ strongest records (key_of taint_record)
strength_of-parse_taint_results_example =
    strength_of-parse_taint_results records (key_of taint_record)
