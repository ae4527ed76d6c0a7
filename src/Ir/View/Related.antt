-- ===== src/Ir/View/Related.antt =====
-- The relations of an answer of the back end in the view.
use audit_zoo_bug_byters.Base.{
  ◌≡◌, refl, sym, ap, ◌∙◌, Bool, Bool-cases, inl, inr, true, false, ◌||◌, ◌&&◌, List, [], ◌∷◌, Text,
  codes, text_eq, arith, All,
}
use audit_zoo_bug_byters.Base.Strings.Laws.{text_eq_refl}
use audit_zoo_bug_byters.Ir.Model.{CodeUnit, CodeUnitRelation}
use audit_zoo_bug_byters.Ir.Graph.{
  MultiDiGraph, IsMultiDiGraph, Edge, has, same_edge, same_relation,
}
use audit_zoo_bug_byters.Ir.Graph.Edges.{same_edge_refl, same_edge_sound}
use audit_zoo_bug_byters.Ir.Backend.{
  Backend, Result, ok, raised, Direction, incoming, outgoing, ◌>>◌,
}
use audit_zoo_bug_byters.Ir.View.{View, World, in_graph}
use audit_zoo_bug_byters.Ir.View.Units.{update}
use audit_zoo_bug_byters.Ir.View.Relations.{
  RelatedUnit, need_unit, put_edge, add_relation, add_related, edge_towards, other_end, related_of,
}
use audit_zoo_bug_byters.Ir.View.Invariant.{IsView, Returns, continue-Returns}
use audit_zoo_bug_byters.Ir.View.Reads.{unit_at-node}
use audit_zoo_bug_byters.Ir.View.Edges.{add_related-KeepsEdges}

pub Returns_any : {G S A : Type 0} (r : Result A × World G S) → Returns (λ _ _. Unit {0}) r
Returns_any (ok a, w) = tt
Returns_any (raised e, w) = tt

same_relation_refl : (r : CodeUnitRelation) → same_relation r r ≡ true
unfolding same_relation
same_relation_refl r = rw (text_eq_refl r.kind, text_eq_refl r.metadata) refl

-- A row for a unit and a relation.
abbrev pub has_row : List RelatedUnit → Text → CodeUnitRelation → Bool
has_row [] i key = false
has_row (row ∷ rows) i key =
    (text_eq row.unit.id i && same_relation row.key key) || has_row rows i key

-- What a direction is called.
abbrev pub direction_text : Direction → Text
direction_text outgoing = codes "out"
direction_text incoming = codes "in"

module _ {G S : Type 0} (nx : MultiDiGraph G) (laws : IsMultiDiGraph nx) (backend : Backend S) where
  -- The edges of the relations are in the view.
  abbrev pub Linked : Text → Direction → List (CodeUnit × CodeUnitRelation) → View G → Type 0
  Linked i d rs v =
      All
        (λ (p : CodeUnit × CodeUnitRelation).
          has (nx.edges v.graph) (edge_towards i d p.0.id p.1) ≡ true)
        rs

  add_relation-has :
      (e : Edge) (w : World G S)
      → Returns (λ (_ : Unit {0}) v. has (nx.edges v.graph) e ≡ true) (add_relation nx backend e w)
  unfolding add_relation put_edge
  add_relation-has e w =
      let P : Unit {0} → View G → Type 0 = λ _ v. has (nx.edges v.graph) e ≡ true in
      let any : Unit {0} → View G → Type 0 = λ _ _. Unit {0} in
      continue-Returns any P
        (λ _. need_unit nx backend e.target true >> update (put_edge nx backend e))
        (need_unit nx backend e.source true w) (Returns_any (need_unit nx backend e.source true w))
        λ _ u _.
          continue-Returns any P (λ _. update (put_edge nx backend e))
            (need_unit nx backend e.target true u)
            (Returns_any (need_unit nx backend e.target true u))
            λ _ x _. rw (laws.has-add_edge, same_edge_refl e) refl

  pub Returns_and :
      {A : Type 0} (P : A → View G → Type 0) (X : View G → Type 0) (r : Result A × World G S)
      → Returns P r
      → X r.1.0
      → Returns (λ a v. X v × P a v) r
  Returns_and P X (ok a, w) p x = (x, p)
  Returns_and P X (raised e, w) p x = tt

  -- Where the loading of relations returns, the edge of each is in the view.
  pub add_related-Linked :
      (i : Text) (d : Direction) (rs : List (CodeUnit × CodeUnitRelation)) (w : World G S)
      → Returns (λ (_ : Unit {0}) v. Linked i d rs v) (add_related nx backend i d rs w)
  unfolding add_related
  add_related-Linked i d [] w = tt
  add_related-Linked i d ((t, r) ∷ rs) w =
      let e = edge_towards i d t.id r in
      let P : Unit {0} → View G → Type 0 = λ _ v. Linked i d ((t, r) ∷ rs) v in
      continue-Returns (λ (_ : Unit {0}) _. Unit {0}) P
        (λ _. add_relation nx backend e >> add_related nx backend i d rs)
        (need_unit nx backend t.id true w) (Returns_any (need_unit nx backend t.id true w))
        λ _ u _.
          continue-Returns (λ (_ : Unit {0}) v. has (nx.edges v.graph) e ≡ true) P
            (λ _. add_related nx backend i d rs) (add_relation nx backend e u)
            (add_relation-has e u)
            λ _ x h.
              Returns_and (λ _ v. Linked i d rs v) (λ v. has (nx.edges v.graph) e ≡ true)
                (add_related nx backend i d rs x) (add_related-Linked i d rs x)
                ((add_related-KeepsEdges nx laws backend i d rs).at x e h)

  end_in_graph :
      (v : View G) (d : Direction) (e : Edge)
      → has (nx.edges v.graph) e ≡ true
      → in_graph nx v.graph (other_end nx backend d e) ≡ true
  end_in_graph v outgoing e h = (laws.ends-nodes v.graph e h).1
  end_in_graph v incoming e h = (laws.ends-nodes v.graph e h).0

  -- The rows of a kind among edges of the graph: they are there, and they tell of each such edge.
  pub related_of-total :
      (v : View G)
      → IsView nx v
      → (d : Direction) (kind : Text) (es : List Edge)
      → All (λ e. has (nx.edges v.graph) e ≡ true) es
      → (rows : List RelatedUnit) × (related_of nx backend v.graph d kind es ≡ ok rows)
        × ((e : Edge)
            → has es e ≡ true
            → text_eq e.key.kind kind ≡ true
            → has_row rows (other_end nx backend d e) e.key ≡ true)
  unfolding related_of has
  related_of-total v valid d kind [] h = ([], refl, λ e p k. cc)
  related_of-total v valid d kind (x ∷ es) h =
      let (rows, q, tell) = related_of-total v valid d kind es h.1 in
      elim (Bool-cases (text_eq x.key.kind kind)) [
        | inl this ↦
            let (u, eu, n) =
              unit_at-node nx laws backend v valid (other_end nx backend d x)
                (end_in_graph v d x h.0) in
            let row : RelatedUnit = record { unit = u; direction = d; key = x.key } in
            (
              row ∷ rows,
              rw (this, eu, q) refl,
              λ e p k. elim (Bool-cases (same_edge x e)) [
                | inl same ↦
                    let y = same_edge_sound x e same in
                    rw (← y) (rw (n, text_eq_refl, same_relation_refl x.key) refl)
                | inr apart ↦ rw (tell e (ground arith) k) (ground arith)
              ],
            )
        | inr other ↦ (
          rows,
          rw other q,
          λ e p k. elim (Bool-cases (same_edge x e)) [
            | inl same ↦
                let y = same_edge_sound x e same in
                let z = sym other ∙ ap (λ (c : Edge). text_eq c.key.kind kind) y ∙ k in cc
            | inr apart ↦ tell e (ground arith) k
          ],
        )
      ]
