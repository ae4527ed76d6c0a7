-- ===== src/Pipeline/Evidence.antt =====
-- `_truncate_evidence_field`, `_is_self_flow_source`, `_structural_evidence_for_finding` and
-- `_build_structural_evidence_map`.
pub mod Sources
pub mod Given
use audit_zoo_bug_byters.Base.{
  ℕ, suc, zero, ◌+◌, ◌-◌, Bool, true, false, not, ◌&&◌, ◌||◌, Option, none, some, List, [], ◌∷◌,
  ◌++◌, Text, codes, text_eq, is_empty, or_text, strip, after_last, contains, join_nonempty, length,
  take, leb, ltb, map, if◌then◌else◌,
}
use audit_zoo_bug_byters.Schemas.{JsonLine, JoernRecord, Metadata, Finding}
use audit_zoo_bug_byters.Pipeline.Words.{find_word, decimal}

-- `_truncate_evidence_field`, with `_STRUCTURAL_EVIDENCE_FIELD_CAP`
unfoldable pub truncate_field : Text → Text
truncate_field s = if leb (length s) 240 then s else take 237 s ++ codes "..."

-- A text of the raw record, "" where the metadata hold none.
abbrev pub raw_text : (JoernRecord → Text) → Metadata → Text
raw_text field md = elim md.raw [ none ↦ [] | some item ↦ field item ]

-- `str(raw) if raw not in (None, "", -1, "-1") else ""`
unfoldable pub shown_line : Text → Text
shown_line s = if text_eq s (codes "-1") then [] else s

-- `f"{file}:{line}" if file and line else (file or "")`
unfoldable pub location : Text → Text → Text
location file line = if is_empty file || is_empty line then file else file ++ (codes ":" ++ line)

-- `loc` behind the source, if there is one
unfoldable pub at_location : Text → Text
at_location loc = if is_empty loc then [] else codes "  (at " ++ (loc ++ codes ")")

-- A line with a title, where there is something to say.
unfoldable pub titled : Text → Text → List Text
titled title s = if is_empty s then [] else (title ++ s) ∷ []

-- The loop of the alternative sources, with the sources seen and the number of lines that are left
-- of `_STRUCTURAL_EVIDENCE_ALT_SOURCES_CAP`.
unfoldable pub alt_sources : List Text → ℕ → List Text → List Text
unfolding truncate_field
alt_sources seen zero alts = []
alt_sources seen (suc left) [] = []
alt_sources seen (suc left) (alt ∷ alts) =
    let skipped = alt_sources seen (suc left) alts in
    let taken = truncate_field alt ∷ alt_sources (truncate_field alt ∷ seen) left alts in
    if not (is_empty (truncate_field alt)) && not (contains seen (truncate_field alt))
    then taken
    else skipped

-- The line on the recovery kind.
unfoldable pub kind_line : Text → List Text → List Text
kind_line kind seen =
    if is_empty kind
    then []
    else if is_empty seen
    then (codes "recovery_kind=" ++ kind) ∷ []
    else (codes "recovery_kind="
        ++ (kind ++ (codes "; kinds_seen=" ++ join_nonempty (codes ",") seen)))
      ∷ []

abbrev or_none : Option Text → Text
or_none none = []
or_none (some s) = s

-- `md.get("recovery_kind") or md.get("recoveryKind") or ""`
abbrev kind_of_raw : Metadata → Text
kind_of_raw md = elim md.raw [ none ↦ [] | some item ↦ or_none item.recovery_kind ]

unfoldable pub count_line : Option ℕ → List Text
unfolding decimal
count_line none = []
count_line (some n) = if ltb 1 n then (codes "dedup_count=" ++ decimal n) ∷ [] else []

-- `"\n".join(parts)`, for parts that are not empty
abbrev join_lines : List Text → Text
join_lines parts = join_nonempty (codes "\n") parts

-- `fold` is the folding of a character under `re.IGNORECASE`.
module _ (is_word : ℕ → Bool) (fold : ℕ → ℕ) where
  -- `_is_self_flow_source`
  unfoldable pub is_self_flow_source : Text → Text → Text → Bool
  is_self_flow_source candidate sink_code sink_api =
      let cand = strip candidate in
      let sink = strip sink_code in
      let tail = strip (after_last b'.' (strip sink_api)) in
      if is_empty cand
      then true
      else if not (is_empty sink) && text_eq cand sink
      then true
      else not (is_empty (strip sink_api))
        && not (is_empty tail)
        && find_word is_word fold tail none cand

  -- The first alternative that is no self-flow.
  unfoldable pub pick_alt : Text → Text → List Text → Option Text
  unfolding is_self_flow_source
  pick_alt sink_code sink_api [] = none
  pick_alt sink_code sink_api (alt ∷ alts) =
      let rest = pick_alt sink_code sink_api alts in
      if not (is_empty (truncate_field alt))
        && not (is_self_flow_source (truncate_field alt) sink_code sink_api)
      then some (truncate_field alt)
      else rest

  abbrev demote : Text → Option Text → Text × Text
  demote source none = (source, [])
  demote source (some alt) = (alt, source)

  -- The source that is shown, and the one that it takes the place of, if any.
  unfoldable pub choose_source : Text → Text → Text → List Text → Text × Text
  unfolding is_self_flow_source pick_alt
  choose_source source sink_code sink_api alts =
      if is_self_flow_source source sink_code sink_api
      then demote source (pick_alt sink_code sink_api alts)
      else (source, [])

  -- The set `seen_sources` before the loop.
  abbrev seen_sources : Text × Text → List Text
  seen_sources (source, demoted) =
      (if is_empty source then [] else source ∷ [])
      ++ (if is_empty demoted then [] else demoted ∷ [])

  -- `_structural_evidence_for_finding`
  unfoldable pub structural_evidence_for_finding : Finding → Text
  unfolding choose_source alt_sources kind_line count_line shown_line location at_location titled
  structural_evidence_for_finding f =
      let md = f.metadata in
      let sink_code = truncate_field (raw_text (λ r. r.sink_code) md) in
      let sink_api = strip (or_text (raw_text (λ r. r.sink_name) md) f.sink_api) in
      let src_file = strip (raw_text (λ r. r.source_file) md) in
      let src_line = shown_line (raw_text (λ r. r.source_line.shown) md) in
      let chosen =
        choose_source (truncate_field (raw_text (λ r. r.source_code) md)) sink_code sink_api
          md.dedup_sources in
      let sink_file = strip (raw_text (λ r. r.sink_file) md) in
      let sink_line = shown_line (raw_text (λ r. r.sink_line.shown) md) in
      let source =
        (if is_empty chosen.0
          then []
          else (codes "Source: " ++ (chosen.0 ++ at_location (location src_file src_line))) ∷ []) in
      let alts =
        map (λ s. codes "Alt source: " ++ s)
          (alt_sources (seen_sources chosen) 4 md.dedup_sources) in
      let place =
        (if is_empty sink_file || is_empty sink_line
          then []
          else (codes "Sink location: " ++ (sink_file ++ (codes ":" ++ sink_line))) ∷ []) in
      let kind = strip (or_text (or_none md.recovery_kind) (kind_of_raw md)) in
      join_lines (
        source
        ++ (alts
            ++ (titled (codes "Sink: ") sink_code
                ++ (titled (codes "Sink API: ") sink_api
                    ++ (place
                        ++ (kind_line kind md.recovery_kinds_seen ++ count_line md.dedup_count))))))

  -- `f.metadata["structural_evidence"] = ev`
  abbrev stamp : Finding → Text → Finding
  stamp f ev = record f { metadata = record (f.metadata) { structural_evidence = ev } }

  -- The body of the loop: the entry for the map, and the finding after it.
  unfoldable pub add_evidence :
      ℕ → Finding → Text → List (ℕ × Text) × List Finding → List (ℕ × Text) × List Finding
  add_evidence i f [] (m, fs) = (m, f ∷ fs)
  add_evidence i f (c ∷ ev) (m, fs) = ((i, c ∷ ev) ∷ m, stamp f (c ∷ ev) ∷ fs)

  unfoldable pub evidence_from : ℕ → List Finding → List (ℕ × Text) × List Finding
  unfolding add_evidence structural_evidence_for_finding
  evidence_from i [] = ([], [])
  evidence_from i (f ∷ fs) =
      add_evidence i f (structural_evidence_for_finding f) (evidence_from (suc i) fs)

  -- `_build_structural_evidence_map`: the map, and the findings, which it changes.
  unfoldable pub build_structural_evidence_map : List Finding → List (ℕ × Text) × List Finding
  unfolding evidence_from
  build_structural_evidence_map fs = evidence_from 0 fs
