-- ===== src/Pipeline/Scan/Unions.antt =====
-- The records of the passes, and the counts of the findings.
use audit_zoo_bug_byters.Base.{
  ℕ, suc, ◌+◌, ◌≡◌, refl, ap, ◌∙◌, Option, none, some, List, [], ◌∷◌, ◌++◌, Text, length, map,
  arith,
}
use audit_zoo_bug_byters.Schemas.{JoernRecord, Finding}
use audit_zoo_bug_byters.Joern.Records.{parse_taint_results, count_of}
use audit_zoo_bug_byters.Joern.Tables.{total_count, count_dicts, total_count-parse_taint_results}
use audit_zoo_bug_byters.Pipeline.Scan.{
  to_record, Flags, Answers, pass_list, dicts, raw_union, in_context, get_findings_with_context,
  count_kind, kind_text, count_kinds, no_counts, post_dedup_counts,
}

count_dicts-append :
    (xs ys : List (Option JoernRecord)) → count_dicts (xs ++ ys) ≡ count_dicts xs + count_dicts ys
count_dicts-append [] ys = omega arith
count_dicts-append (none ∷ xs) ys = count_dicts-append xs ys
count_dicts-append (some x ∷ xs) ys = omega (arith, count_dicts-append xs ys)

count_dicts-dicts : (xs : List (Option JoernRecord)) → count_dicts (dicts xs) ≡ count_dicts xs
unfolding dicts
count_dicts-dicts [] = refl
count_dicts-dicts (none ∷ xs) = count_dicts-dicts xs
count_dicts-dicts (some x ∷ xs) = ap suc (count_dicts-dicts xs)

count_dicts-map : (fs : List Finding) → count_dicts (map (λ f. some (to_record f)) fs) ≡ length fs
count_dicts-map [] = refl
count_dicts-map (f ∷ fs) = ap suc (count_dicts-map fs)

count_dicts-raw_union :
    (flags : Flags) (a : Answers)
    → count_dicts (raw_union flags a)
      ≡ length (parse_taint_results a.taint)
        + count_dicts (pass_list flags.direct_sink a.direct_sink)
        + count_dicts (pass_list flags.relaxed_taint a.relaxed_taint)
        + count_dicts (pass_list flags.def_use a.def_use)
unfolding raw_union
count_dicts-raw_union flags a =
    omega
      (arith, count_dicts-append, count_dicts-dicts, count_dicts-map (parse_taint_results a.taint))

count_of-in_context :
    (around : ℕ) (o : Option (List Text)) (f : Finding)
    → count_of (in_context around o f) ≡ count_of f
unfolding in_context
count_of-in_context around none f = refl
count_of-in_context around (some lines) f = refl

total_count-get_findings_with_context :
    (read_lines : Text → Option (List Text)) (around : ℕ) (fs : List Finding)
    → total_count (get_findings_with_context read_lines around fs) ≡ total_count fs
unfolding get_findings_with_context
total_count-get_findings_with_context read_lines around [] = refl
total_count-get_findings_with_context read_lines around (f ∷ fs) = omega (
  arith,
  total_count-get_findings_with_context read_lines around fs,
  count_of-in_context around (read_lines f.file_path) f,
)

-- The findings of a round stand for every record of the passes that are on: their counts add up to
-- the number of findings of the strict pass and of the objects that the other passes answered.
pub total_count-raw_union :
    (read_lines : Text → Option (List Text)) (around : ℕ) (flags : Flags) (a : Answers)
    → total_count (
        get_findings_with_context read_lines around
          (parse_taint_results (some (raw_union flags a))))
      ≡ length (parse_taint_results a.taint)
        + count_dicts (pass_list flags.direct_sink a.direct_sink)
        + count_dicts (pass_list flags.relaxed_taint a.relaxed_taint)
        + count_dicts (pass_list flags.def_use a.def_use)
total_count-raw_union read_lines around flags a =
    total_count-get_findings_with_context read_lines around _
    ∙ total_count-parse_taint_results (raw_union flags a)
    ∙ count_dicts-raw_union flags a

abbrev pub sum_kinds : List (Text × ℕ) → ℕ
sum_kinds [] = 0
sum_kinds ((k, n) ∷ m) = n + sum_kinds m

sum_kinds-count_kind :
    (m : List (Text × ℕ)) (kind : Text) → sum_kinds (count_kind m kind) ≡ suc (sum_kinds m)
unfolding count_kind
sum_kinds-count_kind [] kind = refl
sum_kinds-count_kind ((k, n) ∷ m) kind = ground (arith, sum_kinds-count_kind m kind)

sum_kinds-count_kinds :
    (m : List (Text × ℕ)) (fs : List Finding)
    → sum_kinds (count_kinds m fs) ≡ sum_kinds m + length fs
unfolding count_kinds
sum_kinds-count_kinds m [] = omega arith
sum_kinds-count_kinds m (f ∷ fs) =
    let m' = count_kind m (kind_text f.metadata.recovery_kind) in
    omega (
      arith,
      sum_kinds-count_kinds m' fs,
      sum_kinds-count_kind m (kind_text f.metadata.recovery_kind),
    )

-- The counts by recovery kind add up to the number of findings.
pub sum_kinds-post_dedup_counts : (fs : List Finding) → sum_kinds (post_dedup_counts fs) ≡ length fs
unfolding post_dedup_counts
sum_kinds-post_dedup_counts fs = omega (arith, sum_kinds-count_kinds no_counts fs)
