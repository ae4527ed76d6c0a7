-- ===== src/Score/Lockstep.antt =====
-- The brake of the scorer against the brake of the triage agent.
use audit_zoo_bug_byters.Base.{
  ℕ, suc, ◌≡◌, refl, sym, ◌∙◌, ◌⊎◌, inl, inr, Bool, true, false, Option, none, some, List, [], ◌∷◌,
  ◌++◌, ℤ, Text, strip, arith, occurs_in, join_nonempty, codes, append_assoc, append-nil,
}
use audit_zoo_bug_byters.Base.Strings.Laws.{occurs_in-continued}
use audit_zoo_bug_byters.Schemas.{Verdict, true_positive, false_positive, uncertain, Finding}
use audit_zoo_bug_byters.Triage.{
  Reply, evidence_at, triage, triage_from, triage_batch, snippet_text,
}
use audit_zoo_bug_byters.Triage.Laws.{substring_ok_sound, conclude-committed}
use audit_zoo_bug_byters.Score.{
  Tally, no_tally, tally_one, tally_finding, tally_all, label_findings, gt_line_match, in_snippet,
  snippet_for,
}

-- Joining with one more part at the end continues the text.
join_nonempty-continued :
    (sep a b ev : Text)
    → (k : Text) × (join_nonempty sep (a ∷ b ∷ ev ∷ []) ≡ join_nonempty sep (a ∷ b ∷ [] ∷ []) ++ k)
unfolding join_nonempty
join_nonempty-continued sep [] [] ev = (join_nonempty sep (ev ∷ []), refl)
join_nonempty-continued sep a b [] = ([], sym (append-nil _))
join_nonempty-continued sep [] (d ∷ b) (e ∷ ev) = (sep ++ (e ∷ ev), refl)
join_nonempty-continued sep (c ∷ a) [] (e ∷ ev) = (sep ++ (e ∷ ev), refl)
join_nonempty-continued sep (c ∷ a) (d ∷ b) (e ∷ ev) =
    (sep ++ (e ∷ ev), rw (append_assoc (c ∷ a) _ _, append_assoc sep _ _))

-- The scorer's text continues the text that the agent was shown, if the agent was given the
-- evidence that the finding carries, or none.
in_snippet-continued :
    (f : Finding) (ev expr : Text)
    → (ev ≡ f.metadata.structural_evidence) ⊎ (ev ≡ [])
    → occurs_in (strip expr) (snippet_text f ev) ≡ true
    → in_snippet expr (snippet_for f) ≡ true
unfolding in_snippet snippet_for snippet_text
in_snippet-continued f ev expr (inl same) h = rw (← same, h) (ground arith)
in_snippet-continued f ev expr (inr nothing) h =
    let (k, e) =
      join_nonempty-continued (codes "\n") f.surrounding_context f.code_snippet
        f.metadata.structural_evidence in
    let shown : occurs_in (strip expr) (snippet_text f []) ≡ true = rw nothing at h in
    rw (e, occurs_in-continued (strip expr) _ k shown) (ground arith)

module _ (ask : Finding → Text → Reply) where
  -- A `true_positive` of the triage agent passes the brake of the scorer.
  committed-in_snippet :
      (f : Finding) (ev : Text)
      → (ev ≡ f.metadata.structural_evidence) ⊎ (ev ≡ [])
      → (triage ask f ev).verdict ≡ true_positive
      → in_snippet (triage ask f ev).source_expr (snippet_for f) ≡ true
  unfolding triage
  committed-in_snippet f ev given h =
      in_snippet-continued f ev _ given
        (substring_ok_sound _ _ (conclude-committed f ev (ask f ev) h)).1

  -- From index `idx` on, the agent is given the evidence that the findings carry, or none.
  abbrev pub IsGiven : ℕ → List Finding → List (ℕ × Text) → Type 0
  IsGiven idx [] m = Unit
  IsGiven idx (f ∷ fs) m =
      ((evidence_at m idx ≡ f.metadata.structural_evidence) ⊎ (evidence_at m idx ≡ []))
      × IsGiven (suc idx) fs m

  module _ (vuln_file : Text) (lines : List ℤ) (tolerance : ℕ) where
    tally_one-no_brake :
        (s : Tally) (v : Verdict) (m : Option ℤ) (b : Bool)
        → (v ≡ true_positive → b ≡ true)
        → (tally_one s v m b).fp_by_hallucinated_source ≡ s.fp_by_hallucinated_source
    unfolding tally_one
    tally_one-no_brake s true_positive m false h = absurd (cc (h refl))
    tally_one-no_brake s true_positive (some w) true h = refl
    tally_one-no_brake s true_positive none true h = refl
    tally_one-no_brake s false_positive (some w) b h = refl
    tally_one-no_brake s false_positive none b h = refl
    tally_one-no_brake s uncertain (some w) b h = refl
    tally_one-no_brake s uncertain none b h = refl

    tally_all-no_brake :
        (s : Tally) (idx : ℕ) (fs : List Finding) (m : List (ℕ × Text))
        → IsGiven idx fs m
        → (tally_all vuln_file lines tolerance s fs
            (triage_from ask idx fs m)).fp_by_hallucinated_source
          ≡ s.fp_by_hallucinated_source
    unfolding tally_all triage_from
    tally_all-no_brake s idx [] m g = refl
    tally_all-no_brake s idx (f ∷ fs) m (given, g) =
        let t = triage ask f (evidence_at m idx) in
        tally_all-no_brake (tally_finding vuln_file lines tolerance s f t) (suc idx) fs m g
        ∙ (unfold tally_finding in
            tally_one-no_brake s t.verdict (gt_line_match f vuln_file lines tolerance) _
              (committed-in_snippet f (evidence_at m idx) given))

    -- Whatever the language model answers, the scorer labels no finding of a triaged batch as
    -- hallucinated, if the batch was given for each finding the structural evidence that the
    -- finding carries, or none: the two brakes agree.
    pub no_hallucinated-triage_batch :
        (fs : List Finding) (m : List (ℕ × Text))
        → IsGiven 0 fs m
        → (label_findings vuln_file lines tolerance fs
            (triage_batch ask fs m)).tally.fp_by_hallucinated_source
          ≡ 0
    unfolding label_findings triage_batch
    no_hallucinated-triage_batch fs m g = tally_all-no_brake no_tally 0 fs m g
