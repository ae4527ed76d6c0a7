-- ===== src/Ir/View/Present.antt =====
-- The loading of relations between units that are in the view.
use mathlib.Core.Path.{subst}
use audit_zoo_bug_byters.Base.{
  ◌≡◌, refl, ◌∙◌, Bool, true, false, List, [], ◌∷◌, Text, contains, All,
}
use audit_zoo_bug_byters.Ir.Model.{CodeUnit, CodeUnitRelation}
use audit_zoo_bug_byters.Ir.Graph.{MultiDiGraph, IsMultiDiGraph, Edge}
use audit_zoo_bug_byters.Ir.Backend.{Backend, Result, ok, Direction, incoming, outgoing}
use audit_zoo_bug_byters.Ir.View.{View, World, in_graph, RelationQuery, queried}
use audit_zoo_bug_byters.Ir.View.Relations.{
  RelatedUnit, need_unit, add_relation, add_related, edge_towards, put_edge, mark_query,
  load_related, edges_of, get_directed, get_related_units,
}
use audit_zoo_bug_byters.Ir.View.Invariant.{IsView, Extends-same_graph}
use audit_zoo_bug_byters.Ir.View.Invariant.Checks.{FindsById, Extends-add_edge}
use audit_zoo_bug_byters.Ir.View.Reads.{members_edges}
use audit_zoo_bug_byters.Ir.View.Recall.{need_unit-node}
use audit_zoo_bug_byters.Ir.View.Related.{related_of-total, direction_text}
use audit_zoo_bug_byters.Ir.View.Complete.{
  edges_of-in_graph, chosen, TellsOf, get_related_units-TellsOf,
}
use audit_zoo_bug_byters.Ir.View.Invariant.{Returns}

module _ {G S : Type 0} (nx : MultiDiGraph G) (laws : IsMultiDiGraph nx) (backend : Backend S) where
  -- The units of the relations are in a view.
  abbrev pub Present : List (CodeUnit × CodeUnitRelation) → View G → Type 0
  Present rs v = All (λ (p : CodeUnit × CodeUnitRelation). in_graph nx v.graph p.0.id ≡ true) rs

  need_unit-valid :
      (i : Text) (b : Bool) (w : World G S)
      → IsView nx w.0
      → in_graph nx w.0.graph i ≡ true
      → need_unit nx backend i b w ≡ (ok tt, w)
  need_unit-valid i b w valid h =
      let a = valid.attributed i h in need_unit-node nx laws backend i b w a.attributes h a.found

  ends_present :
      (i j : Text) (d : Direction) (r : CodeUnitRelation) (v : View G)
      → in_graph nx v.graph i ≡ true
      → in_graph nx v.graph j ≡ true
      → let e = edge_towards i d j r in
        (in_graph nx v.graph e.source ≡ true) × (in_graph nx v.graph e.target ≡ true)
  unfolding edge_towards
  ends_present i j outgoing r v p q = (p, q)
  ends_present i j incoming r v p q = (q, p)

  add_relation-present :
      (e : Edge) (w : World G S)
      → IsView nx w.0
      → in_graph nx w.0.graph e.source ≡ true
      → in_graph nx w.0.graph e.target ≡ true
      → add_relation nx backend e w ≡ (ok tt, (put_edge nx backend e w.0, w.1))
  unfolding add_relation
  add_relation-present e w valid p q =
      rw (need_unit-valid e.source true w valid p, need_unit-valid e.target true w valid q) refl

  Present-grown :
      (rs : List (CodeUnit × CodeUnitRelation)) (v u : View G)
      → ((i : Text) → in_graph nx v.graph i ≡ true → in_graph nx u.graph i ≡ true)
      → Present rs v
      → Present rs u
  Present-grown [] v u grow h = tt
  Present-grown ((t, r) ∷ rs) v u grow h = (grow t.id h.0, Present-grown rs v u grow h.1)

  add_related-Present :
      (i : Text) (d : Direction) (rs : List (CodeUnit × CodeUnitRelation)) (w : World G S)
      → IsView nx w.0
      → in_graph nx w.0.graph i ≡ true
      → Present rs w.0
      → (w' : World G S) × (add_related nx backend i d rs w ≡ (ok tt, w')) × IsView nx w'.0
  unfolding add_related put_edge
  add_related-Present i d [] w valid h present = (w, refl, valid)
  add_related-Present i d ((t, r) ∷ rs) w valid h present =
      let e = edge_towards i d t.id r in
      let (p, q) = ends_present i t.id d r w.0 h present.0 in
      let later = Extends-add_edge nx laws backend e w.0 p q in
      let u : World G S = (put_edge nx backend e w.0, w.1) in
      let (w', done, valid') =
        add_related-Present i d rs u (later.kept valid) (later.grown i h)
          (Present-grown rs w.0 u.0 later.grown present.1) in
      (
        w',
        rw (need_unit-valid t.id true w valid present.0, add_relation-present e w valid p q) done,
        valid',
      )

  get_directed-Present :
      (u : CodeUnit) (kind : Text) (d : Direction) (rs : List (CodeUnit × CodeUnitRelation))
      (w : World G S) (s : S)
      → IsView nx w.0
      → in_graph nx w.0.graph u.id ≡ true
      → contains w.0.loaded_relation_kinds kind ≡ false
      → queried w.0.loaded_relations (record { unit_id = u.id; direction = d; kind = kind }) ≡ false
      → backend.get_relations u kind d w.1 ≡ (ok rs, s)
      → Present rs w.0
      → (rows : List RelatedUnit) × (w' : World G S) × (get_directed nx backend u kind true d w
          ≡ (ok rows, w'))
  unfolding get_directed load_related
  get_directed-Present u kind d rs w s valid h unloaded unasked answer present =
      let q : RelationQuery = record { unit_id = u.id; direction = d; kind = kind } in
      let (x, done, valid') = add_related-Present u.id d rs (w.0, s) valid h present in
      let v = mark_query q x.0 in
      let es = edges_of nx backend v.graph d u.id in
      let (rows, read, _) =
        related_of-total nx laws backend v
          ((Extends-same_graph nx x.0 v refl (λ _. refl)).kept valid') d kind es
          (members_edges es (nx.edges v.graph) (edges_of-in_graph nx laws backend v d u.id)) in
      (rows, (v, x.1), rw (unloaded, unasked, answer, done, read) refl)

  returned :
      {A : Type 0} (P : A → View G → Type 0) (r : Result A × World G S) (a : A) (w : World G S)
      → Returns P r
      → r ≡ (ok a, w)
      → P a w.0
  returned P r a w h e = subst (Returns P) e h

  -- `get_related_units`, in one direction, that asks the back end for the relations of a unit of a well-formed view, returns, if the units of these relations are in the view, and its rows tell of every relation of the kind that the back end answered.
  pub get_related_units_complete :
      FindsById backend
      → (u : CodeUnit) (kind : Text) (d : Direction) (rs : List (CodeUnit × CodeUnitRelation))
        (w : World G S) (s : S)
      → IsView nx w.0
      → in_graph nx w.0.graph u.id ≡ true
      → contains w.0.loaded_relation_kinds kind ≡ false
      → queried w.0.loaded_relations (record { unit_id = u.id; direction = d; kind = kind }) ≡ false
      → backend.get_relations u kind d w.1 ≡ (ok rs, s)
      → Present rs w.0
      → (rows : List RelatedUnit) × (w' : World G S) × (get_related_units nx backend u kind
            (direction_text d)
            true
            w
          ≡ (ok rows, w'))
        × TellsOf rs kind rows
  get_related_units_complete honest u kind d rs w s valid h unloaded unasked answer present =
      let (rows, w', done) =
        get_directed-Present u kind d rs w s valid h unloaded unasked answer present in
      let all_done = chosen nx laws backend u kind d w valid h ∙ done in
      (
        rows,
        w',
        all_done,
        returned (λ rows _. TellsOf rs kind rows)
            (get_related_units nx backend u kind (direction_text d) true w) rows w'
            (get_related_units-TellsOf nx laws backend honest u kind d rs w s valid h unloaded
              unasked answer)
            all_done,
      )
