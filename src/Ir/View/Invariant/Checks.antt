-- ===== src/Ir/View/Invariant/Checks.antt =====
-- The check that a unit is there, which every change of the edges or the facts makes first.
use audit_zoo_bug_byters.Base.{
  ◌≡◌, refl, ◌∙◌, Bool, Bool-cases, inl, inr, true, false, not, ◌&&◌, Option, none, some, Text,
  contains, arith, if◌then◌else◌,
}
use audit_zoo_bug_byters.Base.Strings.Laws.{text_eq_sound, text_eq_refl}
use audit_zoo_bug_byters.Ir.Model.{CodeUnit, is_synthetic_id}
use audit_zoo_bug_byters.Ir.Graph.{MultiDiGraph, IsMultiDiGraph, Edge}
use audit_zoo_bug_byters.Ir.Backend.{
  Backend, Result, ok, raised, ir_value_error, pure, raise_if, continue, ◌>>◌,
}
use audit_zoo_bug_byters.Ir.View.{View, World, in_graph, add_unit, unit_at}
use audit_zoo_bug_byters.Ir.View.Units.{
  update, mark_unit, keep_found, load_unit, get_unit, has_unit, is_some,
}
use audit_zoo_bug_byters.Ir.View.Relations.{need_unit}
use audit_zoo_bug_byters.Ir.View.Invariant.{
  Extends, Keeps, >>=-Extends, >>=-Keeps, Returns, continue-Returns, Returns-eq,
}
use audit_zoo_bug_byters.Ir.View.Invariant.Units.{reads-Keeps, has_unit-Keeps}

abbrev pub IsNamed : Text → Result (Option CodeUnit) → Type 0
IsNamed i (ok (some unit)) = unit.id ≡ i
IsNamed i (ok none) = Unit
IsNamed i (raised e) = Unit

-- A back end gives the unit that it was asked for.
abbrev pub FindsById : {S : Type 0} → Backend S → Type 0
FindsById {S} backend = (i : Text) (s : S) → IsNamed i (backend.get_code_unit i s).0

module _ {G S : Type 0} (nx : MultiDiGraph G) (laws : IsMultiDiGraph nx) (backend : Backend S) where
  in_graph-add_edge :
      (e : Edge) (g : G)
      → in_graph nx g e.source ≡ true
      → in_graph nx g e.target ≡ true
      → (i : Text) → in_graph nx (nx.add_edge e g) i ≡ in_graph nx g i
  in_graph-add_edge e g p q i =
      rw laws.nodes-add_edge (ground (arith, text_eq_sound e.source i, text_eq_sound e.target i))

  pub Extends-add_edge :
      (e : Edge) (v : View G)
      → in_graph nx v.graph e.source ≡ true
      → in_graph nx v.graph e.target ≡ true
      → Extends nx v (record v { graph = nx.add_edge e v.graph })
  Extends-add_edge e v p q = record {
    kept = λ valid. record {
      attributed = λ i h.
          let a = valid.attributed i (rw (← in_graph-add_edge e v.graph p q i) h) in
          record {
            attributes = a.attributes;
            found = laws.attributes-add_edge e v.graph i ∙ a.found;
            named = a.named;
            listed = a.listed;
          };
      indexed = λ k i h. rw (in_graph-add_edge e v.graph p q i) (valid.indexed k i h);
    };
    grown = λ i h. rw (in_graph-add_edge e v.graph p q i) h;
  }

module _ {G S : Type 0} (nx : MultiDiGraph G) (laws : IsMultiDiGraph nx) (backend : Backend S)
    (honest : FindsById backend) where
  -- A unit that was found is in the graph.
  abbrev FoundIn : Text → Option CodeUnit → View G → Type 0
  FoundIn i none v = Unit
  FoundIn i (some unit) v = in_graph nx v.graph i ≡ true

  abbrev TrueIn : Text → Bool → View G → Type 0
  TrueIn i false v = Unit
  TrueIn i true v = in_graph nx v.graph i ≡ true

  keep_asked :
      (i : Text) (v : View G) (r : Result (Option CodeUnit) × S)
      → IsNamed i r.0
      → Returns (FoundIn i) (
          continue
            (λ found. update (mark_unit i) >> keep_found nx backend found)
            (let (o, s) = r in (o, (v, s))))
  unfolding keep_found add_unit
  keep_asked i v (ok none, s) h = tt
  keep_asked i v (ok (some u), s) h = rw (laws.nodes-add_node, h, text_eq_refl i) refl
  keep_asked i v (raised e, s) h = tt

  load_unit-FoundIn :
      (i : Text) (b : Bool) (w : World G S) → Returns (FoundIn i) (load_unit nx backend i b w)
  unfolding load_unit
  load_unit-FoundIn i b w = elim (Bool-cases (b && not (contains w.0.loaded_units i))) [
    | inl new ↦ rw new (keep_asked i w.0 (backend.get_code_unit i w.1) (honest i w.1))
    | inr old ↦ rw old tt
  ]

  read_unit :
      (i : Text) (w : World G S) (r : Result CodeUnit)
      → in_graph nx w.0.graph i ≡ true
      → Returns (FoundIn i) (continue (λ unit. pure (some unit)) (r, w))
  read_unit i w (ok u) h = h
  read_unit i w (raised e) h = tt

  pub get_unit-FoundIn :
      (i : Text) (b : Bool) (w : World G S) → Returns (FoundIn i) (get_unit nx backend i b w)
  unfolding get_unit
  get_unit-FoundIn i b w = elim (Bool-cases (in_graph nx w.0.graph i)) [
    | inl here ↦ rw here (read_unit i w (unit_at nx w.0.graph i) here)
    | inr missing ↦ elim (Bool-cases (is_synthetic_id i)) [
      | inl s ↦ rw (missing, s) tt
      | inr s ↦ rw (missing, s) (load_unit-FoundIn i b w)
    ]
  ]

  found_or_not :
      (i : Text) (o : Option CodeUnit) (v : View G)
      → FoundIn i o v
      → TrueIn i (is_some nx backend o) v
  found_or_not i none v h = tt
  found_or_not i (some u) v h = h

  raise_unless :
      (i : Text) (found : Bool) (u : World G S)
      → TrueIn i found u.0
      → Returns
          (λ (_ : Unit {0}) v. in_graph nx v.graph i ≡ true)
          (raise_if (not found) ir_value_error u)
  raise_unless i true u h = h
  raise_unless i false u h = tt

  -- `need_unit` returns only if the unit is in the graph.
  pub need_unit-in_graph :
      (i : Text) (b : Bool) (w : World G S)
      → Returns (λ (_ : Unit {0}) v. in_graph nx v.graph i ≡ true) (need_unit nx backend i b w)
  unfolding need_unit has_unit
  need_unit-in_graph i b w =
      continue-Returns (TrueIn i) (λ (_ : Unit {0}) v. in_graph nx v.graph i ≡ true)
        (λ found. raise_if (not found) ir_value_error) (has_unit nx backend i b w)
        (continue-Returns (FoundIn i) (TrueIn i) (λ o. pure (is_some nx backend o))
          (get_unit nx backend i b w) (get_unit-FoundIn i b w) (λ o u h. found_or_not i o u.0 h))
        (λ found u h. raise_unless i found u h)

  pub need_unit-Keeps : (i : Text) (b : Bool) → Keeps nx (need_unit nx backend i b)
  unfolding need_unit
  need_unit-Keeps i b =
      >>=-Keeps nx (has_unit-Keeps nx laws backend i b) λ found.
        reads-Keeps nx laws backend (λ _. if not found then raised ir_value_error else ok tt)

  -- Both checks of the ends go before a change of the graph.
  pub need_both-Keeps :
      (i j : Text) (b c : Bool) (f : View G → View G)
      → ((v : View G)
          → in_graph nx v.graph i ≡ true
          → in_graph nx v.graph j ≡ true
          → Extends nx v (f v))
      → Keeps nx (need_unit nx backend i b >> (need_unit nx backend j c >> update f))
  need_both-Keeps i j b c f h = record {
    at = λ w.
        let here : Text → Unit {0} → View G → Type 0 = λ k _ v. in_graph nx v.graph k ≡ true in
        let u = (need_unit nx backend i b w).1 in
        let second = need_unit-Keeps j c in
        >>=-Extends nx (need_unit nx backend i b) (λ _. need_unit nx backend j c >> update f) w
          ((need_unit-Keeps i b).at w)
          λ a p.
            >>=-Extends nx (need_unit nx backend j c) (λ _. update f) u (second.at u)
              λ a' q.
                h (need_unit nx backend j c u).1.0
                  ((second.at u).grown i (
                    Returns-eq (here i) (need_unit nx backend i b w) a (need_unit-in_graph i b w)
                      p))
                  (Returns-eq (here j) (need_unit nx backend j c u) a' (need_unit-in_graph j c u)
                    q);
  }
