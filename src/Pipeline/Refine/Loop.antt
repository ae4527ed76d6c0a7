-- ===== src/Pipeline/Refine/Loop.antt =====
-- The expansions of the loop over the findings.
use audit_zoo_bug_byters.Base.{
  ℕ, ◌≤◌, ◌≡◌, refl, inl, inr, Bool, true, false, ◌||◌, List, [], ◌∷◌, Text, is_empty, length,
  Bool-cases, arith,
}
use audit_zoo_bug_byters.Schemas.{Finding, JoernHelperClassification}
use audit_zoo_bug_byters.Joern.{JoernArm}
use audit_zoo_bug_byters.Joern.Catalogs.{ArmIsClean}
use audit_zoo_bug_byters.Pipeline.Refine.{
  Neighbours, Refinement, refine, refine_unless_empty, refine_loop,
}
use audit_zoo_bug_byters.Pipeline.Refine.Steps.{
  ArmGrown, ArmGrown-refl, IsRefined, refine-IsRefined,
}

-- What a pass keeps.
pub record IsKept (arm : JoernArm) (r : JoernArm × List Refinement) : Type 0 where
  pub clean : ArmIsClean r.0
  pub grown : ArmGrown arm r.0
  pub few : length r.1 ≤ 1

module _ (is_word : ℕ → Bool) (call_graph : Text → Neighbours)
    (classify : Neighbours → JoernArm → JoernHelperClassification) where
  -- A finding that the loop passes over: its sink has no name, or no neighbours.
  abbrev pub IsPassedOver : Finding → Type 0
  IsPassedOver f = (is_empty f.sink_api || is_empty (call_graph f.sink_api)) ≡ true

  -- The loop passes over all the findings, or up to the first with neighbours, which it expands by.
  pub data IsPass (arm : JoernArm) : List Finding → JoernArm × List Refinement → Type 0 where
    idle : IsPass arm [] (arm, [])
    passed_over :
        (f : Finding) {fs : List Finding} {r : JoernArm × List Refinement}
        → IsPassedOver f
        → IsPass arm fs r
        → IsPass arm (f ∷ fs) r
    expanded :
        (f : Finding) (fs : List Finding) {r : JoernArm × List Refinement} (action : Refinement)
        → (is_empty f.sink_api || is_empty (call_graph f.sink_api)) ≡ false
        → IsRefined is_word arm
            (call_graph f.sink_api)
            (classify (call_graph f.sink_api) arm)
            r.0
            action
        → r.1 ≡ action ∷ []
        → IsPass arm (f ∷ fs) r

  refine_unless_empty-IsPass :
      (arm : JoernArm) (f : Finding) (fs : List Finding) (ns : Neighbours)
      (rest : JoernArm × List Refinement)
      → ArmIsClean arm
      → is_empty f.sink_api ≡ false
      → call_graph f.sink_api ≡ ns
      → IsPass arm fs rest
      → IsPass arm (f ∷ fs) (refine_unless_empty is_word call_graph classify arm ns rest)
  unfolding refine_unless_empty
  refine_unless_empty-IsPass arm f fs [] rest c named e p = passed_over f (rw (e, named)) p
  refine_unless_empty-IsPass arm f fs (n ∷ ns) rest c named e p =
      expanded f fs (refine is_word arm (n ∷ ns) (classify (n ∷ ns) arm)).1 (rw (e, named))
        (rw e (refine-IsRefined is_word arm (n ∷ ns) (classify (n ∷ ns) arm) c)) refl

  -- In an arm with clean catalogs, the loop expands by the first finding whose sink has a name and
  -- neighbours in the call graph, as one expansion promises, and then ends; if there is none, it
  -- leaves the arm as it is.
  pub refine_loop-IsPass :
      (arm : JoernArm) (fs : List Finding)
      → ArmIsClean arm
      → IsPass arm fs (refine_loop is_word call_graph classify arm fs)
  unfolding refine_loop
  refine_loop-IsPass arm [] c = idle
  refine_loop-IsPass arm (f ∷ fs) c = elim (Bool-cases (is_empty f.sink_api)) [
    | inl nameless ↦ rw nameless (passed_over f (rw nameless) (refine_loop-IsPass arm fs c))
    | inr named ↦ rw named (
        refine_unless_empty-IsPass arm f fs (call_graph f.sink_api) _ c named refl
          (refine_loop-IsPass arm fs c))
  ]

  pub IsPass-IsKept :
      (arm : JoernArm) {fs : List Finding} {r : JoernArm × List Refinement}
      → ArmIsClean arm
      → IsPass arm fs r
      → IsKept arm r
  IsPass-IsKept arm c idle = record { clean = c; grown = ArmGrown-refl arm; few = omega arith }
  IsPass-IsKept arm c (passed_over f h p) = IsPass-IsKept arm c p
  IsPass-IsKept arm c (expanded f fs {r} action h k e) = record {
    clean = k.clean;
    grown = k.grown;
    few = rw e (omega arith);
  }
