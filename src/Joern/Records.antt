-- ===== src/Joern/Records.antt =====
-- auditzoo/agents/cwe78_study/joern_arm.py, `_parse_taint_results` and what it calls: raw records of
-- all the queries become findings, one for each sink.
use audit_zoo_bug_byters.Base.{
  ℕ, ◌+◌, Bool, false, ◌&&◌, not, Option, none, some, List, [], ◌∷◌, ◌++◌, ℤ, pos, eq_ℤ, Text,
  codes, text_eq, contains, strip, lower, is_space, is_empty, sorted_set, length, take, ltb,
  if◌then◌else◌,
}
use audit_zoo_bug_byters.Schemas.{joern, JoernRecord, Finding}

-- `re.sub(r"\s+", " ", s)`. The flag is set inside a run of white space.
unfoldable pub collapse : Bool → Text → Text
collapse in_run [] = []
collapse in_run (c ∷ s) =
    let rest = collapse (is_space c) s in
    if is_space c then (if in_run then rest else b' ' ∷ rest) else c ∷ rest

-- `_normalize_sink_code`, with `_DEDUP_NORM_CAP`
unfoldable pub normalize_sink_code : Text → Text
unfolding collapse
normalize_sink_code code = take 120 (strip (collapse false code))

-- `_RECOVERY_PRIORITY`, with 0 for a word that is not in the table
unfoldable pub priority : Text → ℕ
priority kind =
    if text_eq kind (codes "taint")
    then 4
    else if text_eq kind (codes "relaxed")
    then 3
    else if text_eq kind (codes "def_use")
    then 2
    else if text_eq kind (codes "direct_sink")
    then 1
    else 0

abbrev or_taint : Option Text → Text
or_taint none = codes "taint"
or_taint (some []) = codes "taint"
or_taint (some (c ∷ s)) = c ∷ s

-- `_normalize_recovery_kind`
unfoldable pub normalize_recovery_kind : Option Text → Text
unfolding priority
normalize_recovery_kind value =
    let kind = lower (strip (or_taint value)) in
    if ltb 0 (priority kind) then kind else codes "taint"

-- `int(item.get("sinkLine", 0))`, and 0 where that raises
abbrev pub sink_line_of : JoernRecord → ℤ
sink_line_of item = elim item.sink_line.parsed [ none ↦ pos 0 | some n ↦ n ]

-- `_make_finding`
unfoldable pub make_finding : JoernRecord → Text → Finding
make_finding item kind = record {
  file_path = item.sink_file;
  line_start = sink_line_of item;
  line_end = sink_line_of item;
  rule_id =
      if text_eq kind (codes "taint")
      then codes "joern-taint-reachability"
      else codes "joern-" ++ (kind ++ codes "-recovery");
  message =
      if is_empty item.source_code
      then codes "Direct sink call: " ++ item.sink_code
      else codes "Taint flow: " ++ (item.source_code ++ (codes " -> " ++ item.sink_code));
  code_snippet = item.sink_code;
  surrounding_context = [];
  sink_api = item.sink_name;
  arm = some joern;
  metadata = record {
    raw = some item;
    recovery_kind = some kind;
    recovery_kinds_seen = kind ∷ [];
    dedup_count = some 1;
    dedup_sources = if is_empty item.source_code then [] else item.source_code ∷ [];
    structural_evidence = [];
  };
}

pub record Key : Type 0 where
  pub file : Text
  pub line : ℤ
  pub api : Text
  pub code : Text

unfoldable pub key_eq : Key → Key → Bool
key_eq j k =
    text_eq j.file k.file && eq_ℤ j.line k.line && text_eq j.api k.api && text_eq j.code k.code

unfoldable pub key_of : JoernRecord → Key
key_of item = record {
  file = item.sink_file;
  line = sink_line_of item;
  api = item.sink_name;
  code = normalize_sink_code item.sink_code;
}

-- `int(md.get("dedup_count", 1))`
abbrev pub count_of : Finding → ℕ
count_of f = elim f.metadata.dedup_count [ none ↦ 1 | some n ↦ n ]

-- A source expression joins the list unless it is empty, known, or one too many
-- (`_DEDUP_SOURCES_CAP`).
unfoldable pub add_source : List Text → Text → List Text
add_source sources source =
    if not (is_empty source) && not (contains sources source) && ltb (length sources) 8
    then sources ++ (source ∷ [])
    else sources

-- The kinds of a finding, with one more.
unfoldable pub add_kind : List Text → Text → Text → List Text
add_kind seen existing kind =
    let known = if is_empty seen then existing ∷ [] else seen in
    sorted_set (if contains known kind then known else known ++ (kind ∷ []))

-- The rest of the loop's body, where a finding with the same key exists. A stronger kind replaces
-- the finding and keeps the counts; else the counts alone change.
unfoldable pub merge : Finding → JoernRecord → Text → Finding
unfolding make_finding add_source add_kind
merge existing item kind =
    let md = existing.metadata in
    let existing_kind = normalize_recovery_kind md.recovery_kind in
    let seen = add_kind md.recovery_kinds_seen existing_kind kind in
    let sources = add_source md.dedup_sources item.source_code in
    let count = some (count_of existing + 1) in
    let fresh = make_finding item kind in
    if ltb (priority existing_kind) (priority kind)
    then record fresh {
      metadata = record (fresh.metadata) {
        recovery_kinds_seen = seen;
        dedup_count = count;
        dedup_sources = sources;
      };
    }
    else record existing {
      metadata = record md {
        recovery_kinds_seen = seen;
        dedup_count = count;
        dedup_sources = sources;
      };
    }

-- The dict `by_key`, whose keys are `ordered_keys` in the order of insertion.
abbrev pub Table : Type 0
Table = List (Key × Finding)

unfoldable pub upsert : Table → JoernRecord → Table
unfolding key_of key_eq
upsert [] item = (key_of item, make_finding item (normalize_recovery_kind item.recovery_kind)) ∷ []
upsert ((k, f) ∷ t) item =
    if key_eq k (key_of item)
    then (k, merge f item (normalize_recovery_kind item.recovery_kind)) ∷ t
    else (k, f) ∷ upsert t item

-- The loop. `none` is an item that is no dict, which is skipped.
unfoldable pub dedup_loop : Table → List (Option JoernRecord) → Table
dedup_loop t [] = t
dedup_loop t (none ∷ items) = dedup_loop t items
dedup_loop t (some item ∷ items) = dedup_loop (upsert t item) items

abbrev pub values : Table → List Finding
values [] = []
values ((k, f) ∷ t) = f ∷ values t

-- `_parse_taint_results`. `none` is an answer that is no list.
unfoldable pub parse_taint_results : Option (List (Option JoernRecord)) → List Finding
unfolding dedup_loop upsert merge
parse_taint_results none = []
parse_taint_results (some items) = values (dedup_loop [] items)
