-- ===== src/Pipeline/Refine/Steps.antt =====
-- What one pass of refinement does to the arm.
use audit_zoo_bug_byters.Base.{
  ℕ, ◌≡◌, refl, sym, ap, inl, inr, Bool, true, ◌&&◌, ◌||◌, List, [], ◌∷◌, ◌++◌, Text, contains,
  text_eq, Bool-cases, arith, append-nil,
}
use audit_zoo_bug_byters.Base.Strings.Laws.{text_eq_sound}
use audit_zoo_bug_byters.Schemas.{JoernHelperClassification}
use audit_zoo_bug_byters.Joern.{JoernArm, expand_sources, expand_sinks, expand_sanitizers}
use audit_zoo_bug_byters.Joern.Catalogs.{ArmIsClean, IsExpanded, expand_all, cleaned_texts}
use audit_zoo_bug_byters.Pipeline.Refine.{
  Neighbours, Refinement, with_role, is_source_wrapper, is_sink_wrapper, is_sanitizer, passes_gate,
  gate_sinks, refine,
}

-- Every catalog begins with what it was.
pub record ArmGrown (old new : JoernArm) : Type 0 where
  pub more_sources : List Text
  pub more_sinks : List Text
  pub more_sanitizers : List Text
  pub sources : new.sources ≡ old.sources ++ more_sources
  pub sinks : new.sinks ≡ old.sinks ++ more_sinks
  pub sanitizers : new.sanitizers ≡ old.sanitizers ++ more_sanitizers

pub ArmGrown-refl : (arm : JoernArm) → ArmGrown arm arm
ArmGrown-refl arm = record {
  more_sources = [];
  more_sinks = [];
  more_sanitizers = [];
  sources = sym (append-nil arm.sources);
  sinks = sym (append-nil arm.sinks);
  sanitizers = sym (append-nil arm.sanitizers);
}

expand_sources-ArmIsClean :
    (arm : JoernArm) (new : List Text) → ArmIsClean arm → ArmIsClean (expand_sources arm new)
expand_sources-ArmIsClean arm new c =
    let e = (expand_all arm new c).0 in
    record { sources = e.0.clean; sinks = rw e.1 c.sinks; sanitizers = rw e.2 c.sanitizers }

expand_sinks-ArmIsClean :
    (arm : JoernArm) (new : List Text) → ArmIsClean arm → ArmIsClean (expand_sinks arm new)
expand_sinks-ArmIsClean arm new c =
    let e = (expand_all arm new c).1 in
    record { sources = rw e.1 c.sources; sinks = e.0.clean; sanitizers = rw e.2 c.sanitizers }

-- The three expansions one after the other, each of a clean catalog.
record IsExpandedBy (arm new : JoernArm) (sources sinks sanitizers : List Text) : Type 0 where
  for_sources : IsExpanded arm.sources sources new.sources
  for_sinks : IsExpanded arm.sinks sinks new.sinks
  for_sanitizers : IsExpanded arm.sanitizers sanitizers new.sanitizers

expand-IsExpandedBy :
    (arm : JoernArm) (sources sinks sanitizers : List Text)
    → ArmIsClean arm
    → IsExpandedBy arm
        (expand_sanitizers (expand_sinks (expand_sources arm sources) sinks) sanitizers)
        sources
        sinks
        sanitizers
unfolding expand_sources expand_sinks
expand-IsExpandedBy arm sources sinks sanitizers c =
    let first = expand_sources arm sources in
    let second = expand_sinks first sinks in
    let c1 = expand_sources-ArmIsClean arm sources c in
    let c2 = expand_sinks-ArmIsClean first sinks c1 in
    let e1 = (expand_all arm sources c).0 in
    let e2 = (expand_all first sinks c1).1 in
    let e3 = (expand_all second sanitizers c2).2 in
    record {
      for_sources = rw (e3.1, e2.1) e1.0;
      for_sinks = rw e3.2 (rw e1.1 at e2.0);
      for_sanitizers = rw (e2.2, e1.2) at e3.0;
    }

module _ (is_word : ℕ → Bool) where
  contains-gate_sinks :
      (ns : Neighbours) (evidence : List (Text × Text)) (sinks names : List Text) (x : Text)
      → contains (gate_sinks is_word ns evidence sinks names).0 x
        ≡ (contains names x && passes_gate is_word ns evidence sinks x)
  unfolding gate_sinks contains
  contains-gate_sinks ns evidence sinks [] x = refl
  contains-gate_sinks ns evidence sinks (name ∷ names) x =
      let rest = contains-gate_sinks ns evidence sinks names x in
      let same : text_eq name x ≡ true
          → passes_gate is_word ns evidence sinks name ≡ passes_gate is_word ns evidence sinks x =
        λ e. ap (passes_gate is_word ns evidence sinks) (text_eq_sound name x e) in
      elim (Bool-cases (text_eq name x)) [
        | inl e ↦ ground (arith, rest, same e)
        | inr e ↦ ground (arith, rest)
      ]

  -- What one expansion promises of a clean arm.
  pub record IsRefined (arm : JoernArm) (ns : Neighbours) (c : JoernHelperClassification)
      (new : JoernArm) (action : Refinement) : Type 0 where
    pub clean : ArmIsClean new
    pub grown : ArmGrown arm new
    pub gated :
        (x : Text)
        → contains action.accepted_sinks x ≡ (
            contains (with_role is_sink_wrapper c.classifications) x
            && passes_gate is_word ns c.evidence arm.sinks x)
    pub new_sinks :
        (x : Text)
        → contains new.sinks x
          ≡ (contains arm.sinks x || contains (cleaned_texts action.accepted_sinks) x)
    pub new_sources :
        (x : Text)
        → contains new.sources x ≡ (
            contains arm.sources x
            || contains (cleaned_texts (with_role is_source_wrapper c.classifications)) x)
    pub new_sanitizers :
        (x : Text)
        → contains new.sanitizers x ≡ (
            contains arm.sanitizers x
            || contains (cleaned_texts (with_role is_sanitizer c.classifications)) x)

  -- An expansion of an arm with clean catalogs leaves them clean, each beginning with what it was.
  -- The accepted sinks are exactly the helpers that the model called sink wrappers and that pass the
  -- gate against the catalog as it was, and the sinks hold besides the old ones exactly the cleaned
  -- forms of these. The sources and the sanitizers take those of the model's roles without a gate.
  pub refine-IsRefined :
      (arm : JoernArm) (ns : Neighbours) (c : JoernHelperClassification)
      → ArmIsClean arm
      → IsRefined arm ns c (refine is_word arm ns c).0 (refine is_word arm ns c).1
  unfolding refine
  refine-IsRefined arm ns c k =
      let sinks =
        (gate_sinks is_word ns c.evidence arm.sinks
          (with_role is_sink_wrapper c.classifications)).0 in
      let e =
        expand-IsExpandedBy arm (with_role is_source_wrapper c.classifications) sinks
          (with_role is_sanitizer c.classifications) k in
      record {
        clean = record {
          sources = e.for_sources.clean;
          sinks = e.for_sinks.clean;
          sanitizers = e.for_sanitizers.clean;
        };
        grown = record {
          more_sources = e.for_sources.added;
          more_sinks = e.for_sinks.added;
          more_sanitizers = e.for_sanitizers.added;
          sources = e.for_sources.begins;
          sinks = e.for_sinks.begins;
          sanitizers = e.for_sanitizers.begins;
        };
        gated = λ x. contains-gate_sinks ns c.evidence arm.sinks _ x;
        new_sinks = e.for_sinks.holds;
        new_sources = e.for_sources.holds;
        new_sanitizers = e.for_sanitizers.holds;
      }
