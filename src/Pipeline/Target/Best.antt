-- ===== src/Pipeline/Target/Best.antt =====
-- The three loops against one pass over the pairs.
use audit_zoo_bug_byters.Base.{
  ◌≡◌, refl, sym, ap, ◌∙◌, true, false, Option, none, some, List, [], ◌∷◌,
}
use audit_zoo_bug_byters.Schemas.{
  Verdict, true_positive, false_positive, uncertain, Finding, TriageResult,
}
use audit_zoo_bug_byters.Pipeline.Target.{
  same_verdict, first_with, or_finding, head_finding, pick_refinement_target,
}

-- A pair before the best of the pairs behind it: it stays unless that one is more urgent, where a
-- false positive is more urgent than an uncertain finding, and this than a true positive.
abbrev pub more_urgent : Finding × Verdict → Option (Finding × Verdict) → Finding × Verdict
more_urgent (f, false_positive) rest = (f, false_positive)
more_urgent (f, uncertain) (some (g, false_positive)) = (g, false_positive)
more_urgent (f, uncertain) (some (g, uncertain)) = (f, uncertain)
more_urgent (f, uncertain) (some (g, true_positive)) = (f, uncertain)
more_urgent (f, uncertain) none = (f, uncertain)
more_urgent (f, true_positive) (some (g, false_positive)) = (g, false_positive)
more_urgent (f, true_positive) (some (g, uncertain)) = (g, uncertain)
more_urgent (f, true_positive) (some (g, true_positive)) = (f, true_positive)
more_urgent (f, true_positive) none = (f, true_positive)

-- The first of the most urgent pairs.
abbrev pub most_urgent : List Finding → List TriageResult → Option (Finding × Verdict)
most_urgent [] ts = none
most_urgent (f ∷ fs) [] = none
most_urgent (f ∷ fs) (t ∷ ts) = some (more_urgent (f, t.verdict) (most_urgent fs ts))

-- The best of what the three loops find.
chain : Option Finding → Option Finding → Option Finding → Option (Finding × Verdict)
chain (some f) b c = some (f, false_positive)
chain none (some f) c = some (f, uncertain)
chain none none (some f) = some (f, true_positive)
chain none none none = none

chain-step :
    (f : Finding) (v : Verdict) (a b c : Option Finding)
    → some (more_urgent (f, v) (chain a b c))
      ≡ chain
          (elim (same_verdict v false_positive) [ true ↦ some f | false ↦ a ])
          (elim (same_verdict v uncertain) [ true ↦ some f | false ↦ b ])
          (elim (same_verdict v true_positive) [ true ↦ some f | false ↦ c ])
unfolding chain
chain-step f false_positive a b c = refl
chain-step f uncertain (some g) b c = refl
chain-step f uncertain none (some g) c = refl
chain-step f uncertain none none (some g) = refl
chain-step f uncertain none none none = refl
chain-step f true_positive (some g) b c = refl
chain-step f true_positive none (some g) c = refl
chain-step f true_positive none none (some g) = refl
chain-step f true_positive none none none = refl

most_urgent-chain :
    (fs : List Finding) (ts : List TriageResult)
    → most_urgent fs ts
      ≡ chain
          (first_with false_positive fs ts)
          (first_with uncertain fs ts)
          (first_with true_positive fs ts)
unfolding first_with chain
most_urgent-chain [] ts = refl
most_urgent-chain (f ∷ fs) [] = refl
most_urgent-chain (f ∷ fs) (t ∷ ts) =
    ap (λ r. some (more_urgent (f, t.verdict) r)) (most_urgent-chain fs ts)
    ∙ chain-step f t.verdict _ _ _

-- The finding of a pair, and a finding that is there where there is none.
abbrev pub finding_or : Option (Finding × Verdict) → Option Finding → Option Finding
finding_or none other = other
finding_or (some (f, v)) other = some f

finding_or-chain :
    (a b c d : Option Finding)
    → finding_or (chain a b c) d ≡ or_finding a (or_finding b (or_finding c d))
unfolding chain
finding_or-chain (some f) b c d = refl
finding_or-chain none (some f) c d = refl
finding_or-chain none none (some f) d = refl
finding_or-chain none none none d = refl

-- The target is the first of the most urgent findings that have a verdict, or the first finding where
-- none has one: a false positive is more urgent than an uncertain finding, and this than a true
-- positive.
pub pick_refinement_target_lem :
    (fs : List Finding) (ts : List TriageResult)
    → pick_refinement_target fs ts ≡ finding_or (most_urgent fs ts) (head_finding fs)
unfolding pick_refinement_target
pick_refinement_target_lem fs ts =
    sym (
      finding_or-chain (first_with false_positive fs ts) (first_with uncertain fs ts)
        (first_with true_positive fs ts) (head_finding fs))
    ∙ ap (λ r. finding_or r (head_finding fs)) (sym (most_urgent-chain fs ts))
