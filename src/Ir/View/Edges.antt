-- ===== src/Ir/View/Edges.antt =====
-- The edges of the graph under the calls that ask for one unit or add relations.
use audit_zoo_bug_byters.Base.{
  ◌≡◌, Bool, Bool-cases, inl, inr, true, not, ◌&&◌, Option, none, some, List, [], ◌∷◌, Text,
  contains, arith, if◌then◌else◌,
}
use audit_zoo_bug_byters.Ir.Model.{CodeUnit, CodeUnitRelation, is_synthetic_id}
use audit_zoo_bug_byters.Ir.Graph.{MultiDiGraph, IsMultiDiGraph, Edge, has}
use audit_zoo_bug_byters.Ir.Backend.{
  Backend, Result, ok, raised, ir_value_error, Direction, Action, pure, reads, continue, ◌>>=◌,
  ◌>>◌,
}
use audit_zoo_bug_byters.Ir.View.{View, World, in_graph, unit_at, add_unit, ask}
use audit_zoo_bug_byters.Ir.View.Units.{
  update, mark_unit, keep_found, load_unit, get_unit, has_unit, is_some,
}
use audit_zoo_bug_byters.Ir.View.Relations.{
  need_unit, put_edge, add_relation, add_related, edge_towards,
}

module _ {G S : Type 0} (nx : MultiDiGraph G) (laws : IsMultiDiGraph nx) (backend : Backend S) where
  -- A call after which every edge is still there.
  pub record KeepsEdges {A : Type 0} (m : Action (World G S) A) : Type 0 where
    pub at :
        (w : World G S) (e : Edge)
        → has (nx.edges w.0.graph) e ≡ true
        → has (nx.edges (m w).1.0.graph) e ≡ true

  continue-KeepsEdges :
      {A B : Type 0} (f : A → Action (World G S) B) (e : Edge)
      → ((a : A) → KeepsEdges (f a))
      → (r : Result A × World G S) → has (nx.edges r.1.0.graph) e ≡ true
      → has (nx.edges (continue f r).1.0.graph) e ≡ true
  continue-KeepsEdges f e k (ok a, w) h = (k a).at w e h
  continue-KeepsEdges f e k (raised x, w) h = h

  pub >>=-KeepsEdges :
      {A B : Type 0} {m : Action (World G S) A} {f : A → Action (World G S) B}
      → KeepsEdges m
      → ((a : A) → KeepsEdges (f a))
      → KeepsEdges (m >>= f)
  >>=-KeepsEdges {m = m} {f = f} p q = record {
    at = λ w e h. continue-KeepsEdges f e q (m w) (p.at w e h);
  }

  reads-KeepsEdges : {A : Type 0} (f : World G S → Result A) → KeepsEdges (reads f)
  reads-KeepsEdges f = record { at = λ w e h. h }

  ask-KeepsEdges : {A : Type 0} (call : Action S A) → KeepsEdges (ask call)
  ask-KeepsEdges call = record { at = λ w e h. h }

  update-KeepsEdges :
      (f : View G → View G)
      → ((v : View G) (e : Edge)
          → has (nx.edges v.graph) e ≡ true
          → has (nx.edges (f v).graph) e ≡ true)
      → KeepsEdges (update f)
  update-KeepsEdges f h = record { at = λ w. h w.0 }

  keep_found-KeepsEdges : (o : Option CodeUnit) → KeepsEdges (keep_found nx backend o)
  unfolding keep_found add_unit
  keep_found-KeepsEdges none = reads-KeepsEdges (λ _. ok none)
  keep_found-KeepsEdges (some u) =
      >>=-KeepsEdges (update-KeepsEdges (add_unit nx u) (λ v e h. rw laws.edges-add_node h))
        λ _. reads-KeepsEdges (λ _. ok (some u))

  ask_unit-KeepsEdges :
      (i : Text)
      → KeepsEdges (
          ask (backend.get_code_unit i) >>= λ found.
          update (mark_unit i) >> keep_found nx backend found)
  ask_unit-KeepsEdges i = >>=-KeepsEdges (ask-KeepsEdges (backend.get_code_unit i)) λ found.
      >>=-KeepsEdges (update-KeepsEdges (mark_unit i) (λ v e h. h)) λ _. keep_found-KeepsEdges found

  read_unit-KeepsEdges :
      (r : Result CodeUnit) → KeepsEdges (reads (λ _. r) >>= λ unit. pure (some unit))
  read_unit-KeepsEdges r =
      >>=-KeepsEdges (reads-KeepsEdges (λ _. r)) λ u. reads-KeepsEdges (λ _. ok (some u))

  load_unit-KeepsEdges : (i : Text) (b : Bool) → KeepsEdges (load_unit nx backend i b)
  unfolding load_unit
  load_unit-KeepsEdges i b = record {
    at = λ w e h. elim (Bool-cases (b && not (contains w.0.loaded_units i))) [
      | inl new ↦ rw new ((ask_unit-KeepsEdges i).at w e h)
      | inr old ↦ rw old h
    ];
  }

  get_unit-KeepsEdges : (i : Text) (b : Bool) → KeepsEdges (get_unit nx backend i b)
  unfolding get_unit
  get_unit-KeepsEdges i b = record {
    at = λ w e h. elim (Bool-cases (in_graph nx w.0.graph i)) [
      | inl here ↦ rw here ((read_unit-KeepsEdges (unit_at nx w.0.graph i)).at w e h)
      | inr missing ↦ elim (Bool-cases (is_synthetic_id i)) [
        | inl s ↦ rw (missing, s) h
        | inr s ↦ rw (missing, s) ((load_unit-KeepsEdges i b).at w e h)
      ]
    ];
  }

  need_unit-KeepsEdges : (i : Text) (b : Bool) → KeepsEdges (need_unit nx backend i b)
  unfolding need_unit has_unit
  need_unit-KeepsEdges i b =
      >>=-KeepsEdges
        (>>=-KeepsEdges (get_unit-KeepsEdges i b)
          λ o. reads-KeepsEdges (λ _. ok (is_some nx backend o)))
        λ found. reads-KeepsEdges (λ _. if not found then raised ir_value_error else ok tt)

  pub add_relation-KeepsEdges : (e : Edge) → KeepsEdges (add_relation nx backend e)
  unfolding add_relation put_edge
  add_relation-KeepsEdges e = >>=-KeepsEdges (need_unit-KeepsEdges e.source true) λ _.
      >>=-KeepsEdges (need_unit-KeepsEdges e.target true) λ _.
        update-KeepsEdges (put_edge nx backend e)
          (λ v d h. rw (laws.has-add_edge, h) (ground arith))

  pub add_related-KeepsEdges :
      (i : Text) (d : Direction) (rs : List (CodeUnit × CodeUnitRelation))
      → KeepsEdges (add_related nx backend i d rs)
  unfolding add_related
  add_related-KeepsEdges i d [] = reads-KeepsEdges (λ _. ok tt)
  add_related-KeepsEdges i d ((t, r) ∷ rs) = >>=-KeepsEdges (need_unit-KeepsEdges t.id true) λ _.
      >>=-KeepsEdges (add_relation-KeepsEdges (edge_towards i d t.id r))
        λ _. add_related-KeepsEdges i d rs
