-- ===== src/Score/Table.antt =====
-- The scorer against its decision table, and what its counters mean.
use audit_zoo_bug_byters.Base.{
  ℕ, ◌+◌, ◌≡◌, refl, sym, Bool, true, false, Option, none, some, List, [], ◌∷◌, ◌++◌, ℤ, Text,
  if◌then◌else◌, ◌==◌, arith, append-nil, append_assoc,
}
use audit_zoo_bug_byters.Schemas.{
  Verdict, true_positive, false_positive, uncertain, Finding, TriageResult,
}
use audit_zoo_bug_byters.Score.{
  Label, tn, fn_by_llm, tp, fp_by_hallucinated_source, fp_by_llm_overclaim, uncertain_on_gt,
  uncertain_off_gt, Tally, no_tally, tally_one, tally_finding, tally_all, label_findings,
  gt_line_match, in_snippet, snippet_for,
}

-- The matrix of verdict, match and source, as the scorer documents it.
abbrev pub label_for : Verdict → Option ℤ → Bool → Label
label_for false_positive none _ = tn
label_for false_positive (some _) _ = fn_by_llm
label_for true_positive (some _) true = tp
label_for true_positive _ false = fp_by_hallucinated_source
label_for true_positive none true = fp_by_llm_overclaim
label_for uncertain (some _) _ = uncertain_on_gt
label_for uncertain none _ = uncertain_off_gt

abbrev pub label_code : Label → ℕ
label_code tn = 0
label_code fn_by_llm = 1
label_code tp = 2
label_code fp_by_hallucinated_source = 3
label_code fp_by_llm_overclaim = 4
label_code uncertain_on_gt = 5
label_code uncertain_off_gt = 6

unfoldable pub count_label : Label → List Label → ℕ
count_label l [] = 0
count_label l (x ∷ xs) = (if label_code x == label_code l then 1 else 0) + count_label l xs

count_label-snoc :
    (l x : Label) (xs : List Label)
    → count_label l (xs ++ (x ∷ []))
      ≡ count_label l xs + (if label_code x == label_code l then 1 else 0)
unfolding count_label
count_label-snoc l x [] = omega arith
count_label-snoc l x (y ∷ xs) = omega (arith, count_label-snoc l x xs)

-- Every counter is the number of its labels.
pub record IsCounted (s : Tally) : Type 0 where
  pub tps : s.tp ≡ count_label tp s.labels
  pub fps :
      s.fp
      ≡ count_label fp_by_hallucinated_source s.labels + count_label fp_by_llm_overclaim s.labels
  pub killed : s.fn_by_llm ≡ count_label fn_by_llm s.labels
  pub hallucinated : s.fp_by_hallucinated_source ≡ count_label fp_by_hallucinated_source s.labels
  pub unsure_on : s.uncertain_on_gt ≡ count_label uncertain_on_gt s.labels
  pub unsure_off : s.uncertain_off_gt ≡ count_label uncertain_off_gt s.labels

tally_one-IsCounted :
    (s : Tally) (v : Verdict) (m : Option ℤ) (b : Bool)
    → IsCounted s
    → IsCounted (tally_one s v m b)
unfolding tally_one
tally_one-IsCounted s false_positive (some v) b c = omega (arith, count_label-snoc)
tally_one-IsCounted s false_positive none b c = omega (arith, count_label-snoc)
tally_one-IsCounted s true_positive m false c = omega (arith, count_label-snoc)
tally_one-IsCounted s true_positive (some v) true c = omega (arith, count_label-snoc)
tally_one-IsCounted s true_positive none true c = omega (arith, count_label-snoc)
tally_one-IsCounted s uncertain (some v) b c = omega (arith, count_label-snoc)
tally_one-IsCounted s uncertain none b c = omega (arith, count_label-snoc)

labels-tally_one :
    (s : Tally) (v : Verdict) (m : Option ℤ) (b : Bool)
    → (tally_one s v m b).labels ≡ s.labels ++ (label_for v m b ∷ [])
unfolding tally_one
labels-tally_one s false_positive (some v) b = refl
labels-tally_one s false_positive none b = refl
labels-tally_one s true_positive (some v) false = refl
labels-tally_one s true_positive none false = refl
labels-tally_one s true_positive (some v) true = refl
labels-tally_one s true_positive none true = refl
labels-tally_one s uncertain (some v) b = refl
labels-tally_one s uncertain none b = refl

module _ (vuln_file : Text) (lines : List ℤ) (tolerance : ℕ) where
  -- The label of a finding with its verdict, by the matrix.
  abbrev pub decide_label : Finding → TriageResult → Label
  decide_label f t =
      label_for t.verdict (gt_line_match f vuln_file lines tolerance)
        (in_snippet t.source_expr (snippet_for f))

  abbrev pub decide_labels : List Finding → List TriageResult → List Label
  decide_labels [] ts = []
  decide_labels (f ∷ fs) [] = []
  decide_labels (f ∷ fs) (t ∷ ts) = decide_label f t ∷ decide_labels fs ts

  labels-tally_all :
      (s : Tally) (fs : List Finding) (ts : List TriageResult)
      → (tally_all vuln_file lines tolerance s fs ts).labels ≡ s.labels ++ decide_labels fs ts
  unfolding tally_all
  labels-tally_all s [] ts = sym (append-nil s.labels)
  labels-tally_all s (f ∷ fs) [] = sym (append-nil s.labels)
  labels-tally_all s (f ∷ fs) (t ∷ ts) = rw (
    labels-tally_all (tally_finding vuln_file lines tolerance s f t) fs ts,
    labels-tally_finding,
    append_assoc,
  )
    where
      labels-tally_finding :
          (tally_finding vuln_file lines tolerance s f t).labels
          ≡ s.labels ++ (decide_label f t ∷ [])
      labels-tally_finding = unfold tally_finding in labels-tally_one s _ _ _

  tally_all-IsCounted :
      (s : Tally) (fs : List Finding) (ts : List TriageResult)
      → IsCounted s
      → IsCounted (tally_all vuln_file lines tolerance s fs ts)
  unfolding tally_all
  tally_all-IsCounted s [] ts c = c
  tally_all-IsCounted s (f ∷ fs) [] c = c
  tally_all-IsCounted s (f ∷ fs) (t ∷ ts) c =
      tally_all-IsCounted (tally_finding vuln_file lines tolerance s f t) fs ts
        (unfold tally_finding in tally_one-IsCounted s _ _ _ c)

  -- The labels are those of the documented matrix, finding by finding, and each counter that is
  -- returned is the number of findings with its labels: `tp` those labelled `tp`, `fp` those
  -- labelled hallucinated or overclaimed, and so on.
  pub labels-label_findings :
      (fs : List Finding) (ts : List TriageResult)
      → ((label_findings vuln_file lines tolerance fs ts).tally.labels ≡ decide_labels fs ts)
        × IsCounted (label_findings vuln_file lines tolerance fs ts).tally
  unfolding label_findings
  labels-label_findings fs ts = (
    labels-tally_all no_tally fs ts,
    tally_all-IsCounted no_tally fs ts (unfold count_label in omega arith),
  )
