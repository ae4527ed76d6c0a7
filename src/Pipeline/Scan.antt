-- ===== src/Pipeline/Scan.antt =====
-- The scan of one round: the records of all passes become findings, with the lines around them. The
-- answers of Joern and the lines of the files are parameters.
pub mod Unions
use audit_zoo_bug_byters.Base.{
  ℕ, suc, zero, ◌+◌, ◌-◌, Bool, true, false, not, ◌&&◌, ◌||◌, Option, none, some, List, [], ◌∷◌,
  ◌++◌, ℤ, pos, negsuc, Text, codes, text_eq, is_empty, length, take, drop, map, min, ltb, pos_part,
  neg_part, replicate, join_nonempty, if◌then◌else◌,
}
use audit_zoo_bug_byters.Schemas.{JsonLine, JoernRecord, Metadata, Finding, TriageResult}
use audit_zoo_bug_byters.Triage.{Reply, triage_batch}
use audit_zoo_bug_byters.Joern.{JoernArm}
use audit_zoo_bug_byters.Joern.Records.{parse_taint_results}
use audit_zoo_bug_byters.Pipeline.Words.{decimal}

-- `str` of an integer
unfoldable pub signed_decimal : ℤ → Text
unfolding decimal
signed_decimal (pos n) = decimal n
signed_decimal (negsuc n) = codes "-" ++ decimal (suc n)

abbrev first_or : List Text → Text → Text
first_or [] s = s
first_or (t ∷ ts) s = t

abbrev kind_or_taint : Option Text → Option Text
kind_or_taint none = some (codes "taint")
kind_or_taint (some s) = some s

-- A finding of the strict pass as a record again (`payload`).
unfoldable pub to_record : Finding → JoernRecord
to_record f =
    let md = f.metadata in
    record {
      sink_file = f.file_path;
      sink_line = record { shown = signed_decimal f.line_start; parsed = some f.line_start };
      sink_name = f.sink_api;
      sink_code = f.code_snippet;
      source_file = elim md.raw [ none ↦ [] | some item ↦ item.source_file ];
      source_line = elim md.raw [
        | none ↦ record { shown = codes "-1"; parsed = some (negsuc 0) }
        | some item ↦ item.source_line
      ];
      source_code =
          first_or md.dedup_sources (elim md.raw [ none ↦ [] | some item ↦ item.source_code ]);
      recovery_kind = kind_or_taint md.recovery_kind;
    }

-- A raw answer of a query: `none` is a failure or no list, and within a list `none` is no dict.
abbrev pub Answer : Type 0
Answer = Option (List (Option JoernRecord))

-- The flags of the recovery passes in the configuration.
pub record Flags : Type 0 where
  pub direct_sink : Bool
  pub relaxed_taint : Bool
  pub def_use : Bool

-- The answers of the four queries.
pub record Answers : Type 0 where
  pub taint : Answer
  pub direct_sink : Answer
  pub relaxed_taint : Answer
  pub def_use : Answer

-- The list that a recovery pass contributes, `[]` where it is off.
abbrev pub pass_list : Bool → Answer → List (Option JoernRecord)
pass_list false a = []
pass_list true none = []
pass_list true (some items) = items

-- `r for r in items if isinstance(r, dict)`
unfoldable pub dicts : List (Option JoernRecord) → List (Option JoernRecord)
dicts [] = []
dicts (none ∷ items) = dicts items
dicts (some item ∷ items) = some item ∷ dicts items

-- `raw_union`
unfoldable pub raw_union : Flags → Answers → List (Option JoernRecord)
unfolding dicts
raw_union flags a =
    map (λ f. some (to_record f)) (parse_taint_results a.taint)
    ++ (dicts (pass_list flags.direct_sink a.direct_sink)
        ++ (dicts (pass_list flags.relaxed_taint a.relaxed_taint)
            ++ dicts (pass_list flags.def_use a.def_use)))

-- `raw_recovery_counts`
pub record RawCounts : Type 0 where
  pub taint : ℕ
  pub direct_sink : ℕ
  pub relaxed : ℕ
  pub def_use : ℕ

unfoldable pub raw_recovery_counts : Flags → Answers → RawCounts
raw_recovery_counts flags a = record {
  taint = length (parse_taint_results a.taint);
  direct_sink = length (pass_list flags.direct_sink a.direct_sink);
  relaxed = length (pass_list flags.relaxed_taint a.relaxed_taint);
  def_use = length (pass_list flags.def_use a.def_use);
}

-- `f"{n:>5}| {line}"` for the lines from number `n` on.
unfoldable pub numbered : ℕ → List Text → List Text
unfolding decimal
numbered n [] = []
numbered n (line ∷ lines) =
    (replicate (5 - length (decimal n)) b' ' ++ (decimal n ++ (codes "| " ++ line)))
    ∷ numbered (suc n) lines

-- The number of the first line that is shown, from 0, and of the line behind the last.
unfoldable pub context_start : ℕ → ℤ → ℕ
context_start lines_around line = pos_part line - (1 + lines_around)

unfoldable pub context_end : ℕ → ℤ → ℕ → ℕ
context_end lines_around line total = min total (pos_part line + lines_around - neg_part line)

-- The rest of the loop of `JoernArm.get_findings_with_context`, where the file is there. No line of
-- the context is empty.
unfoldable pub in_context : ℕ → Option (List Text) → Finding → Finding
unfolding numbered context_start context_end
in_context lines_around none f = f
in_context lines_around (some lines) f =
    let start = context_start lines_around f.line_start in
    let end = context_end lines_around f.line_end (length lines) in
    record f {
      surrounding_context =
          join_nonempty (codes "\n") (numbered (suc start) (take (end - start) (drop start lines)));
    }

-- `JoernArm.get_findings_with_context`
unfoldable pub get_findings_with_context :
    (Text → Option (List Text)) → ℕ → List Finding → List Finding
unfolding in_context
get_findings_with_context read_lines lines_around [] = []
get_findings_with_context read_lines lines_around (f ∷ fs) =
    in_context lines_around (read_lines f.file_path) f
    ∷ get_findings_with_context read_lines lines_around fs

-- One more finding of a kind, in the dict `post_dedup_counts`.
unfoldable pub count_kind : List (Text × ℕ) → Text → List (Text × ℕ)
count_kind [] kind = (kind, 1) ∷ []
count_kind ((k, n) ∷ m) kind =
    let rest = count_kind m kind in if text_eq k kind then (k, n + 1) ∷ m else (k, n) ∷ rest

abbrev pub kind_text : Option Text → Text
kind_text none = codes "taint"
kind_text (some s) = s

unfoldable pub count_kinds : List (Text × ℕ) → List Finding → List (Text × ℕ)
unfolding count_kind
count_kinds m [] = m
count_kinds m (f ∷ fs) = count_kinds (count_kind m (kind_text f.metadata.recovery_kind)) fs

-- `post_dedup_counts` before the loop.
abbrev pub no_counts : List (Text × ℕ)
no_counts =
    (codes "taint", 0) ∷ (codes "relaxed", 0) ∷ (codes "def_use", 0) ∷ (codes "direct_sink", 0) ∷ []

unfoldable pub post_dedup_counts : List Finding → List (Text × ℕ)
unfolding count_kinds
post_dedup_counts fs = count_kinds no_counts fs
