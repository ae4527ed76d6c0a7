-- ===== src/Score/Missed.antt =====
-- What `fn` counts, and how it relates to `tp`.
use audit_zoo_bug_byters.Base.{
  ℕ, ◌+◌, ◌≤◌, ◌≡◌, refl, inl, inr, Bool, true, false, ◌||◌, Option, none, some, List, [], ◌∷◌, ℤ,
  dist, mem_ℤ, eq_ℤ, eq_ℤ_refl, leb, Text, length, if◌then◌else◌, arith, Bool-cases, leb→le,
  path_matches,
}
use audit_zoo_bug_byters.Schemas.{
  Verdict, true_positive, false_positive, uncertain, Finding, TriageResult,
}
use audit_zoo_bug_byters.Score.Lines.{mem_ℤ-add_line, NodupLines, AllIn, count_missed-length}
use audit_zoo_bug_byters.Score.{
  Tally, no_tally, tally_one, tally_finding, tally_all, label_findings, add_line, count_missed,
  gt_line_match, first_near, in_snippet, snippet_for,
}

-- A finding credits the line `v`: the model committed to it, its source stands in the snippet, and
-- `v` is the line that it matches.
abbrev pub credits_line : Verdict → Option ℤ → Bool → ℤ → Bool
credits_line true_positive (some w) true v = eq_ℤ w v
credits_line _ _ _ v = false

mem_ℤ-tally_one :
    (s : Tally) (r : Verdict) (m : Option ℤ) (b : Bool) (v : ℤ)
    → mem_ℤ (tally_one s r m b).matched_vuln_lines v
      ≡ (mem_ℤ s.matched_vuln_lines v || credits_line r m b v)
unfolding tally_one
mem_ℤ-tally_one s true_positive (some w) true v = mem_ℤ-add_line s.matched_vuln_lines w v
mem_ℤ-tally_one s true_positive (some w) false v = ground arith
mem_ℤ-tally_one s true_positive none true v = ground arith
mem_ℤ-tally_one s true_positive none false v = ground arith
mem_ℤ-tally_one s false_positive (some w) b v = ground arith
mem_ℤ-tally_one s false_positive none b v = ground arith
mem_ℤ-tally_one s uncertain (some w) b v = ground arith
mem_ℤ-tally_one s uncertain none b v = ground arith

first_near-mem :
    (lines : List ℤ) (line : ℤ) (tolerance : ℕ) {v : ℤ}
    → first_near lines line tolerance ≡ some v
    → (mem_ℤ lines v ≡ true) × (dist line v ≤ tolerance)
unfolding first_near mem_ℤ
first_near-mem [] line tolerance h = cc
first_near-mem (w ∷ ws) line tolerance {v} h = elim (Bool-cases (leb (dist line w) tolerance)) [
  | inl near ↦ let e : w ≡ v = ground arith in rw (← e) (rw (eq_ℤ_refl w) refl, leb→le _ _ near)
  | inr far ↦
      let (found, close) = first_near-mem ws line tolerance {v = v} (ground arith) in
      (ground arith, close)
]

-- A match is a line of the ground truth within the tolerance, in a file that matches.
pub gt_line_match_sound :
    (f : Finding) (vuln_file : Text) (lines : List ℤ) (tolerance : ℕ) {v : ℤ}
    → gt_line_match f vuln_file lines tolerance ≡ some v
    → (path_matches f.file_path vuln_file ≡ true)
      × (mem_ℤ lines v ≡ true)
      × (dist f.line_start v ≤ tolerance)
unfolding gt_line_match
gt_line_match_sound f vuln_file lines tolerance {v} h =
    let near : first_near lines f.line_start tolerance ≡ some v = ground arith in
    let (found, close) = first_near-mem lines f.line_start tolerance near in
    (ground arith, found, close)

-- What the loop keeps of the matched lines.
pub record IsMatched (lines : List ℤ) (s : Tally) : Type 0 where
  pub distinct : NodupLines s.matched_vuln_lines
  pub known : AllIn lines s.matched_vuln_lines
  pub few : length s.matched_vuln_lines ≤ s.tp

add_line-IsMatched :
    (lines m : List ℤ) (v : ℤ) (n : ℕ)
    → mem_ℤ lines v ≡ true
    → NodupLines m × AllIn lines m × (length m ≤ n)
    → NodupLines (add_line m v) × AllIn lines (add_line m v) × (length (add_line m v) ≤ n + 1)
unfolding add_line
add_line-IsMatched lines m v n h (u, k, l) = elim (Bool-cases (mem_ℤ m v)) [
  | inl old ↦ rw old (u, k, omega arith)
  | inr new ↦ rw new ((new, u), (h, k), omega arith)
]

tally_one-IsMatched :
    (lines : List ℤ) (s : Tally) (r : Verdict) (m : Option ℤ) (b : Bool)
    → ((v : ℤ) → m ≡ some v → mem_ℤ lines v ≡ true)
    → IsMatched lines s
    → IsMatched lines (tally_one s r m b)
unfolding tally_one
tally_one-IsMatched lines s true_positive (some w) true h k =
    let (u, a, l) =
      add_line-IsMatched lines s.matched_vuln_lines w s.tp (h w refl)
        (k.distinct, k.known, k.few) in
    record { distinct = u; known = a; few = l }
tally_one-IsMatched lines s true_positive (some w) false h k = assumption
tally_one-IsMatched lines s true_positive none true h k = assumption
tally_one-IsMatched lines s true_positive none false h k = assumption
tally_one-IsMatched lines s false_positive (some w) b h k = assumption
tally_one-IsMatched lines s false_positive none b h k = assumption
tally_one-IsMatched lines s uncertain (some w) b h k = assumption
tally_one-IsMatched lines s uncertain none b h k = assumption

module _ (vuln_file : Text) (lines : List ℤ) (tolerance : ℕ) where
  tally_all-IsMatched :
      (s : Tally) (fs : List Finding) (ts : List TriageResult)
      → IsMatched lines s
      → IsMatched lines (tally_all vuln_file lines tolerance s fs ts)
  unfolding tally_all
  tally_all-IsMatched s [] ts k = k
  tally_all-IsMatched s (f ∷ fs) [] k = k
  tally_all-IsMatched s (f ∷ fs) (t ∷ ts) k =
      tally_all-IsMatched (tally_finding vuln_file lines tolerance s f t) fs ts (
        unfold tally_finding in
        tally_one-IsMatched lines s t.verdict (gt_line_match f vuln_file lines tolerance) _
          (λ v e. (gt_line_match_sound f vuln_file lines tolerance e).1) k)

  -- The line `v` is credited by some finding.
  abbrev pub credited : List Finding → List TriageResult → ℤ → Bool
  credited [] ts v = false
  credited (f ∷ fs) [] v = false
  credited (f ∷ fs) (t ∷ ts) v =
      credits_line t.verdict (gt_line_match f vuln_file lines tolerance)
        (in_snippet t.source_expr (snippet_for f)) v
      || credited fs ts v

  mem_ℤ-tally_all :
      (s : Tally) (fs : List Finding) (ts : List TriageResult) (v : ℤ)
      → mem_ℤ (tally_all vuln_file lines tolerance s fs ts).matched_vuln_lines v
        ≡ (mem_ℤ s.matched_vuln_lines v || credited fs ts v)
  unfolding tally_all
  mem_ℤ-tally_all s [] ts v = ground arith
  mem_ℤ-tally_all s (f ∷ fs) [] v = ground arith
  mem_ℤ-tally_all s (f ∷ fs) (t ∷ ts) v =
      rw
        (
          mem_ℤ-tally_all (tally_finding vuln_file lines tolerance s f t) fs ts v,
          mem_ℤ-tally_finding,
        )
        (ground arith)
    where
      mem_ℤ-tally_finding :
          mem_ℤ (tally_finding vuln_file lines tolerance s f t).matched_vuln_lines v ≡ (
            mem_ℤ s.matched_vuln_lines v
            || credits_line t.verdict
                (gt_line_match f vuln_file lines tolerance)
                (in_snippet t.source_expr (snippet_for f))
                v)
      mem_ℤ-tally_finding = unfold tally_finding in mem_ℤ-tally_one s t.verdict _ _ v

  -- The number of lines that no finding credits.
  abbrev pub count_uncredited : List Finding → List TriageResult → List ℤ → ℕ
  count_uncredited fs ts [] = 0
  count_uncredited fs ts (v ∷ vs) = (if credited fs ts v then 0 else 1) + count_uncredited fs ts vs

  count_missed-uncredited :
      (fs : List Finding) (ts : List TriageResult) (vs : List ℤ)
      → count_missed vs (tally_all vuln_file lines tolerance no_tally fs ts).matched_vuln_lines
        ≡ count_uncredited fs ts vs
  unfolding count_missed mem_ℤ
  count_missed-uncredited fs ts [] = refl
  count_missed-uncredited fs ts (v ∷ vs) =
      rw (mem_ℤ-tally_all no_tally fs ts v) (ground (arith, count_missed-uncredited fs ts vs))

  -- `fn` is the number of vulnerable lines that no finding credits, where a finding credits the
  -- one line that it matches if the model committed to it and its source stands in the snippet.
  pub fn-label_findings :
      (fs : List Finding) (ts : List TriageResult)
      → (label_findings vuln_file lines tolerance fs ts).fn ≡ count_uncredited fs ts lines
  unfolding label_findings
  fn-label_findings fs ts = count_missed-uncredited fs ts lines

  -- If the set of lines has no repetition, then `fn` is at most their number, and the lines that
  -- are not missed are at most `tp`: their number is at most `tp + fn`.
  pub lines-le-tp_fn :
      (fs : List Finding) (ts : List TriageResult)
      → NodupLines lines
      → ((label_findings vuln_file lines tolerance fs ts).fn ≤ length lines)
        × (length lines
            ≤ (label_findings vuln_file lines tolerance fs ts).tally.tp
              + (label_findings vuln_file lines tolerance fs ts).fn)
  unfolding label_findings
  lines-le-tp_fn fs ts u =
      let k =
        tally_all-IsMatched no_tally fs ts
          (record { distinct = tt; known = tt; few = omega arith }) in
      omega (arith, count_missed-length lines _ u k.distinct k.known, k.few)
