-- ===== src/Pipeline/Refine.antt =====
-- The refinement of the Joern arm's catalogs by the roles that the language model gives to helpers.
pub mod Steps
pub mod Loop
use audit_zoo_bug_byters.Base.{
  ℕ, Bool, true, false, not, ◌&&◌, ◌||◌, Option, none, some, List, [], ◌∷◌, ◌++◌, Text, codes,
  text_eq, is_empty, if◌then◌else◌,
}
use audit_zoo_bug_byters.Schemas.{
  HelperRole, source_wrapper, sink_wrapper, transformer, sanitizer, unrelated, Finding,
  JoernHelperClassification,
}
use audit_zoo_bug_byters.Joern.{JoernArm, expand_sources, expand_sinks, expand_sanitizers}
use audit_zoo_bug_byters.Pipeline.Gate.{Neighbour, no_neighbour, verify_sink_wrapper}

-- An answer of the call graph: objects, and other values as `none`.
abbrev pub Neighbours : Type 0
Neighbours = List (Option Neighbour)

abbrev pub later_or : Option Neighbour → Option Neighbour → Option Neighbour
later_or (some n) earlier = some n
later_or none earlier = earlier

-- `neighbour_index.get(name)`: the last object with the name, which is not empty.
unfoldable pub neighbour_at : Neighbours → Text → Option Neighbour
neighbour_at [] name = none
neighbour_at (none ∷ ns) name = neighbour_at ns name
neighbour_at (some n ∷ ns) name =
    later_or (neighbour_at ns name)
      (if not (is_empty n.name) && text_eq n.name name then some n else none)

abbrev or_no_neighbour : Option Neighbour → Neighbour
or_no_neighbour none = no_neighbour
or_no_neighbour (some n) = n

-- `classification.evidence.get(name, "")`
unfoldable pub cited : List (Text × Text) → Text → Text
cited [] name = []
cited ((n, ev) ∷ m) name = if text_eq n name then ev else cited m name

abbrev pub is_source_wrapper : HelperRole → Bool
is_source_wrapper source_wrapper = true
is_source_wrapper _ = false

abbrev pub is_sink_wrapper : HelperRole → Bool
is_sink_wrapper sink_wrapper = true
is_sink_wrapper _ = false

abbrev pub is_sanitizer : HelperRole → Bool
is_sanitizer sanitizer = true
is_sanitizer _ = false

-- `[n for n, r in classifications.items() if r == role]`
unfoldable pub with_role : (HelperRole → Bool) → List (Text × HelperRole) → List Text
with_role role [] = []
with_role role ((n, r) ∷ cs) = let rest = with_role role cs in if role r then n ∷ rest else rest

-- What is recorded of one refinement; a rejected sink has the reason with it.
pub record Refinement : Type 0 where
  pub classification : JoernHelperClassification
  pub accepted_sinks : List Text
  pub rejected_sinks : List (Text × Text)

abbrev rejection : Option Neighbour → Text
rejection none = codes "no call-graph metadata for candidate"
rejection (some n) = codes "no callee/body match against current sink catalog"

module _ (is_word : ℕ → Bool) where
  -- The gate on one candidate.
  unfoldable pub passes_gate : Neighbours → List (Text × Text) → List Text → Text → Bool
  passes_gate ns evidence sinks name =
      verify_sink_wrapper is_word (or_no_neighbour (neighbour_at ns name)) sinks
        (cited evidence name)

  -- The loop over the candidates, for `new_sinks` and `rejected_sinks`.
  unfoldable pub gate_sinks :
      Neighbours → List (Text × Text) → List Text → List Text → List Text × List (Text × Text)
  gate_sinks ns evidence sinks [] = ([], [])
  gate_sinks ns evidence sinks (name ∷ names) =
      let (new, rejected) = gate_sinks ns evidence sinks names in
      if passes_gate ns evidence sinks name
      then (name ∷ new, rejected)
      else (new, (name, rejection (neighbour_at ns name)) ∷ rejected)

  -- One expansion.
  unfoldable pub refine : JoernArm → Neighbours → JoernHelperClassification → JoernArm × Refinement
  unfolding with_role gate_sinks
  refine arm ns c =
      let gated =
        gate_sinks ns c.evidence arm.sinks (with_role is_sink_wrapper c.classifications) in
      (
        expand_sanitizers
            (expand_sinks (expand_sources arm (with_role is_source_wrapper c.classifications))
              gated.0)
            (with_role is_sanitizer c.classifications),
        record { classification = c; accepted_sinks = gated.0; rejected_sinks = gated.1 },
      )

  -- `call_graph` stands for Joern's answer on a sink, `[]` where it fails, and `classify` for the
  -- language model's.
  module _ (call_graph : Text → Neighbours)
      (classify : Neighbours → JoernArm → JoernHelperClassification) where
    -- The body of the loop where the sink has a name, and what the loop comes to without it.
    unfoldable pub refine_unless_empty :
        JoernArm → Neighbours → JoernArm × List Refinement → JoernArm × List Refinement
    unfolding refine
    refine_unless_empty arm [] rest = rest
    refine_unless_empty arm (n ∷ ns) rest =
        let (grown, action) = refine arm (n ∷ ns) (classify (n ∷ ns) arm) in (grown, action ∷ [])

    -- The loop over the findings, which one expansion ends.
    unfoldable pub refine_loop : JoernArm → List Finding → JoernArm × List Refinement
    unfolding refine_unless_empty
    refine_loop arm [] = (arm, [])
    refine_loop arm (f ∷ fs) =
        let rest = refine_loop arm fs in
        if is_empty f.sink_api then rest else refine_unless_empty arm (call_graph f.sink_api) rest
