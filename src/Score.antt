-- ===== src/Score.antt =====
-- scripts/run_evaluation.py: the labels and counts of one arm's findings against the known
-- vulnerable lines. The rates `precision`, `recall` and `f1` are floats computed from `tp`, `fp` and
-- `fn`, and are left out.
pub mod Table
pub mod Lines
pub mod Missed
pub mod Committed
pub mod Lockstep
use audit_zoo_bug_byters.Base.{
  ℕ, suc, zero, ◌+◌, Bool, true, false, not, ◌&&◌, ◌||◌, Option, none, some, List, [], ◌∷◌, ◌++◌, ℤ,
  dist, mem_ℤ, leb, Text, codes, ltb, length, strip, occurs_in, is_empty, join_nonempty,
  path_matches, if◌then◌else◌,
}
use audit_zoo_bug_byters.Schemas.{
  Verdict, true_positive, false_positive, uncertain, Finding, TriageResult,
}

pub data Label : Type 0 where
  tn fn_by_llm tp fp_by_hallucinated_source fp_by_llm_overclaim uncertain_on_gt uncertain_off_gt :
      Label

-- The two entries of the dict `ground_truth` that are read.
pub record GroundTruth : Type 0 where
  pub vulnerable_file : Text
  pub vulnerable_lines : List ℤ

-- `_snippet_for`
unfoldable pub snippet_for : Finding → Text
snippet_for f =
    join_nonempty (codes "\n")
      (f.surrounding_context ∷ f.code_snippet ∷ f.metadata.structural_evidence ∷ [])

-- `(not source_expr) or (source_expr in snippet)`, for the stripped `source_expr`
unfoldable pub in_snippet : Text → Text → Bool
in_snippet expr snippet = let e = strip expr in is_empty e || occurs_in e snippet

-- The loop of `_gt_line_match` over the set of lines, in the order of its iteration.
unfoldable pub first_near : List ℤ → ℤ → ℕ → Option ℤ
first_near [] line tolerance = none
first_near (v ∷ vs) line tolerance =
    if leb (dist line v) tolerance then some v else first_near vs line tolerance

-- `_gt_line_match`: `none` is the result `(False, None)`, and `some v` is `(True, v)`.
unfoldable pub gt_line_match : Finding → Text → List ℤ → ℕ → Option ℤ
unfolding first_near
gt_line_match f vuln_file vuln_lines tolerance =
    if is_empty vuln_lines
    then none
    else if path_matches f.file_path vuln_file
    then first_near vuln_lines f.line_start tolerance
    else none

-- The local variables of the loop in `label_findings`.
pub record Tally : Type 0 where
  pub tp : ℕ
  pub fp : ℕ
  pub fn_by_llm : ℕ
  pub fp_by_hallucinated_source : ℕ
  pub uncertain_on_gt : ℕ
  pub uncertain_off_gt : ℕ
  pub labels : List Label
  pub matched_vuln_lines : List ℤ

abbrev pub no_tally : Tally
no_tally = record {
  tp = 0;
  fp = 0;
  fn_by_llm = 0;
  fp_by_hallucinated_source = 0;
  uncertain_on_gt = 0;
  uncertain_off_gt = 0;
  labels = [];
  matched_vuln_lines = [];
}

-- `matched_vuln_lines.add(v)`
unfoldable pub add_line : List ℤ → ℤ → List ℤ
add_line vs v = if mem_ℤ vs v then vs else v ∷ vs

-- The body of the loop, from the verdict, the match and the test on the source on.
unfoldable pub tally_one : Tally → Verdict → Option ℤ → Bool → Tally
unfolding add_line
tally_one s false_positive (some v) source = record s {
  fn_by_llm = s.fn_by_llm + 1;
  labels = s.labels ++ (Label.fn_by_llm ∷ []);
}
tally_one s false_positive none source = record s { labels = s.labels ++ (tn ∷ []) }
tally_one s true_positive matched false = record s {
  fp = s.fp + 1;
  fp_by_hallucinated_source = s.fp_by_hallucinated_source + 1;
  labels = s.labels ++ (Label.fp_by_hallucinated_source ∷ []);
}
tally_one s true_positive (some v) true = record s {
  tp = s.tp + 1;
  matched_vuln_lines = add_line s.matched_vuln_lines v;
  labels = s.labels ++ (Label.tp ∷ []);
}
tally_one s true_positive none true = record s {
  fp = s.fp + 1;
  labels = s.labels ++ (fp_by_llm_overclaim ∷ []);
}
tally_one s uncertain (some v) source = record s {
  uncertain_on_gt = s.uncertain_on_gt + 1;
  labels = s.labels ++ (Label.uncertain_on_gt ∷ []);
}
tally_one s uncertain none source = record s {
  uncertain_off_gt = s.uncertain_off_gt + 1;
  labels = s.labels ++ (Label.uncertain_off_gt ∷ []);
}

-- `len(lines - matched)`
unfoldable pub count_missed : List ℤ → List ℤ → ℕ
count_missed [] matched = 0
count_missed (v ∷ vs) matched =
    let rest = count_missed vs matched in if mem_ℤ matched v then rest else suc rest

pub record Scores : Type 0 where
  pub tally : Tally
  pub fn : ℕ
  pub uncertain_total : ℕ
  -- `detection_rate` is 1.0 or 0.0
  pub detected : Bool

-- `lines` is the set `set(ground_truth["vulnerable_lines"])` in the order of its iteration, which
-- Python leaves open.
module _ (vuln_file : Text) (lines : List ℤ) (tolerance : ℕ) where
  -- One round of the loop over `zip(findings, triage_results)`.
  unfoldable pub tally_finding : Tally → Finding → TriageResult → Tally
  unfolding gt_line_match in_snippet tally_one
  tally_finding s f t =
      tally_one s t.verdict (gt_line_match f vuln_file lines tolerance)
        (in_snippet t.source_expr (snippet_for f))

  -- The loop; `zip` stops at the shorter list.
  unfoldable pub tally_all : Tally → List Finding → List TriageResult → Tally
  tally_all s [] ts = s
  tally_all s (f ∷ fs) [] = s
  tally_all s (f ∷ fs) (t ∷ ts) = tally_all (tally_finding s f t) fs ts

  unfoldable pub label_findings : List Finding → List TriageResult → Scores
  unfolding tally_all count_missed
  label_findings fs ts =
      let s = tally_all no_tally fs ts in
      record {
        tally = s;
        fn = count_missed lines s.matched_vuln_lines;
        uncertain_total = s.uncertain_on_gt + s.uncertain_off_gt;
        detected = ltb 0 s.tp;
      }
