-- ===== src/Pipeline/Target.antt =====
-- `_pick_refinement_target`: the finding that the refinement of the Semgrep rules is built on.
pub mod Best
use audit_zoo_bug_byters.Base.{ℕ, Bool, true, false, Option, none, some, List, [], ◌∷◌}
use audit_zoo_bug_byters.Schemas.{
  Verdict, true_positive, false_positive, uncertain, Finding, TriageResult,
}

-- `t.verdict == verdict`
abbrev pub same_verdict : Verdict → Verdict → Bool
same_verdict true_positive true_positive = true
same_verdict false_positive false_positive = true
same_verdict uncertain uncertain = true
same_verdict _ _ = false

-- The inner loop for one verdict, over the pairs of `zip`.
unfoldable pub first_with : Verdict → List Finding → List TriageResult → Option Finding
first_with v [] ts = none
first_with v (f ∷ fs) [] = none
first_with v (f ∷ fs) (t ∷ ts) = elim (same_verdict t.verdict v) [
  | true ↦ some f
  | false ↦ first_with v fs ts
]

abbrev pub or_finding : Option Finding → Option Finding → Option Finding
or_finding (some f) other = some f
or_finding none other = other

-- `findings[0]`, where `none` is the `IndexError` of an empty list.
abbrev pub head_finding : List Finding → Option Finding
head_finding [] = none
head_finding (f ∷ fs) = some f

-- `_pick_refinement_target`
unfoldable pub pick_refinement_target : List Finding → List TriageResult → Option Finding
unfolding first_with
pick_refinement_target fs ts = or_finding (first_with false_positive fs ts) (
    or_finding (first_with uncertain fs ts)
      (or_finding (first_with true_positive fs ts) (head_finding fs)))
