-- ===== src/Ir/View/Complete.antt =====
-- What `get_related_units` tells of the answer of the back end.
use audit_zoo_bug_byters.Base.{
  ◌≡◌, refl, sym, ◌∙◌, Bool, true, false, not, ◌||◌, ◌&&◌, List, [], ◌∷◌, Text, text_eq, contains,
  arith,
}
use audit_zoo_bug_byters.Base.Strings.Laws.{text_eq_refl}
use audit_zoo_bug_byters.Ir.Model.{CodeUnit, CodeUnitRelation}
use audit_zoo_bug_byters.Ir.Graph.{MultiDiGraph, IsMultiDiGraph, Edge, has}
use audit_zoo_bug_byters.Ir.Backend.{
  Backend, Result, ok, raised, Direction, incoming, outgoing, reads, continue,
}
use audit_zoo_bug_byters.Ir.View.{View, World, in_graph, RelationQuery, queried}
use audit_zoo_bug_byters.Ir.View.Units.{update}
use audit_zoo_bug_byters.Ir.View.Relations.{
  RelatedUnit, add_related, edge_towards, mark_query, load_related, other_end, edges_of, related_of,
  get_directed, get_chosen, get_related_units, direction_of,
}
use audit_zoo_bug_byters.Ir.View.Invariant.{IsView, Extends-same_graph, Returns}
use audit_zoo_bug_byters.Ir.View.Invariant.Checks.{FindsById}
use audit_zoo_bug_byters.Ir.View.Invariant.Relations.{add_related-Keeps}
use audit_zoo_bug_byters.Ir.View.Reads.{members_edges}
use audit_zoo_bug_byters.Ir.View.Recall.{need_unit-node}
use audit_zoo_bug_byters.Ir.View.Related.{
  Linked, has_row, related_of-total, add_related-Linked, Returns_and, direction_text,
}

-- The rows tell of every relation of the kind.
abbrev pub TellsOf : List (CodeUnit × CodeUnitRelation) → Text → List RelatedUnit → Type 0
TellsOf [] kind rows = Unit
TellsOf ((t, r) ∷ rs) kind rows =
    ((not (text_eq r.kind kind) || has_row rows t.id r) ≡ true) × TellsOf rs kind rows

or_holds : (a b : Bool) → (a ≡ true → b ≡ true) → (not a || b) ≡ true
or_holds true b h = h refl
or_holds false b h = refl

and_second : (a b : Bool) → (a && b) ≡ true → b ≡ true
and_second a b h = ground arith

module _ {G S : Type 0} (nx : MultiDiGraph G) (laws : IsMultiDiGraph nx) (backend : Backend S) where
  pub edges_of-in_graph :
      (v : View G) (d : Direction) (i : Text) (e : Edge)
      → has (edges_of nx backend v.graph d i) e ≡ true
      → has (nx.edges v.graph) e ≡ true
  edges_of-in_graph v outgoing i e h =
      and_second (text_eq e.source i) (has (nx.edges v.graph) e)
        (sym (laws.out_edges_lem v.graph i e) ∙ h)
  edges_of-in_graph v incoming i e h =
      and_second (text_eq e.target i) (has (nx.edges v.graph) e)
        (sym (laws.in_edges_lem v.graph i e) ∙ h)

  edge_towards-edges_of :
      (v : View G) (d : Direction) (i j : Text) (r : CodeUnitRelation)
      → has (nx.edges v.graph) (edge_towards i d j r) ≡ true
      → has (edges_of nx backend v.graph d i) (edge_towards i d j r) ≡ true
  unfolding edge_towards
  edge_towards-edges_of v outgoing i j r h = rw (laws.out_edges_lem, text_eq_refl i, h) refl
  edge_towards-edges_of v incoming i j r h = rw (laws.in_edges_lem, text_eq_refl i, h) refl

  row_towards :
      (rows : List RelatedUnit) (d : Direction) (i j kind : Text) (r : CodeUnitRelation)
      → ((e : Edge)
          → e ≡ edge_towards i d j r
          → text_eq e.key.kind kind ≡ true
          → has_row rows (other_end nx backend d e) e.key ≡ true)
      → (not (text_eq r.kind kind) || has_row rows j r) ≡ true
  unfolding edge_towards
  row_towards rows outgoing i j kind r tell =
      or_holds (text_eq r.kind kind) (has_row rows j r) (tell (edge_towards i outgoing j r) refl)
  row_towards rows incoming i j kind r tell =
      or_holds (text_eq r.kind kind) (has_row rows j r) (tell (edge_towards i incoming j r) refl)

  tell_all :
      (v : View G) (i kind : Text) (d : Direction) (rs : List (CodeUnit × CodeUnitRelation))
      (rows : List RelatedUnit)
      → Linked nx laws backend i d rs v
      → ((e : Edge)
          → has (edges_of nx backend v.graph d i) e ≡ true
          → text_eq e.key.kind kind ≡ true
          → has_row rows (other_end nx backend d e) e.key ≡ true)
      → TellsOf rs kind rows
  tell_all v i kind d [] rows h tell = tt
  tell_all v i kind d ((t, r) ∷ rs) rows h tell = (
    row_towards rows d i t.id kind r
        (λ e p. tell e (rw p (edge_towards-edges_of v d i t.id r h.0))),
    tell_all v i kind d rs rows h.1 tell,
  )

  -- The rows that are read from a view with the edges.
  read_all :
      (w : World G S)
      → IsView nx w.0
      → (i kind : Text) (d : Direction) (rs : List (CodeUnit × CodeUnitRelation))
      → Linked nx laws backend i d rs w.0
      → Returns
          (λ rows _. TellsOf rs kind rows)
          (reads
            (λ u. related_of nx backend u.0.graph d kind (edges_of nx backend u.0.graph d i))
            w)
  read_all w valid i kind d rs linked =
      let es = edges_of nx backend w.0.graph d i in
      let (rows, q, tell) =
        related_of-total nx laws backend w.0 valid d kind es
          (members_edges es (nx.edges w.0.graph) (edges_of-in_graph w.0 d i)) in
      rw q (tell_all w.0 i kind d rs rows linked tell)

  -- A view with its edges, after the mark.
  abbrev Loaded : Text → Direction → List (CodeUnit × CodeUnitRelation) → Unit {0} → View G → Type 0
  Loaded i d rs _ v = IsView nx v × Linked nx laws backend i d rs v

  Loaded-related :
      FindsById backend
      → (u : CodeUnit) (kind : Text) (d : Direction) (rs : List (CodeUnit × CodeUnitRelation))
        (w : World G S) (s : S)
      → IsView nx w.0
      → Returns (Loaded u.id d rs) (add_related nx backend u.id d rs (w.0, s))
  Loaded-related honest u kind d rs w s valid =
      Returns_and nx laws backend (λ _ v. Linked nx laws backend u.id d rs v) (IsView nx)
        (add_related nx backend u.id d rs (w.0, s))
        (add_related-Linked nx laws backend u.id d rs (w.0, s))
        (((add_related-Keeps nx laws backend honest u.id d rs).at (w.0, s)).kept valid)

  directed :
      (u : CodeUnit) (kind : Text) (d : Direction) (rs : List (CodeUnit × CodeUnitRelation))
      (q : RelationQuery) (r : Result (Unit {0}) × World G S)
      → Returns (Loaded u.id d rs) r
      → Returns
          (λ rows _. TellsOf rs kind rows)
          (continue
            (λ _.
              reads (λ w.
                related_of nx backend w.0.graph d kind (edges_of nx backend w.0.graph d u.id)))
            (continue (λ _. update (mark_query q)) r))
  directed u kind d rs q (ok _, w) h =
      read_all (mark_query q w.0, w.1)
        ((Extends-same_graph nx w.0 (mark_query q w.0) refl (λ _. refl)).kept h.0) u.id kind d rs
        h.1
  directed u kind d rs q (raised e, w) h = tt

  get_directed-TellsOf :
      FindsById backend
      → (u : CodeUnit) (kind : Text) (d : Direction) (rs : List (CodeUnit × CodeUnitRelation))
        (w : World G S) (s : S)
      → IsView nx w.0
      → contains w.0.loaded_relation_kinds kind ≡ false
      → queried w.0.loaded_relations (record { unit_id = u.id; direction = d; kind = kind }) ≡ false
      → backend.get_relations u kind d w.1 ≡ (ok rs, s)
      → Returns (λ rows _. TellsOf rs kind rows) (get_directed nx backend u kind true d w)
  unfolding get_directed load_related
  get_directed-TellsOf honest u kind d rs w s valid unloaded unasked answer =
      rw (unloaded, unasked, answer)
        (directed u kind d rs (record { unit_id = u.id; direction = d; kind = kind })
          (add_related nx backend u.id d rs (w.0, s)) (Loaded-related honest u kind d rs w s valid))

  pub chosen :
      (u : CodeUnit) (kind : Text) (d : Direction) (w : World G S)
      → IsView nx w.0
      → in_graph nx w.0.graph u.id ≡ true
      → get_related_units nx backend u kind (direction_text d) true w
        ≡ get_directed nx backend u kind true d w
  unfolding get_related_units get_chosen direction_of text_eq
  chosen u kind outgoing w valid h =
      rw
        (need_unit-node nx laws backend u.id true w (valid.attributed u.id h).attributes h
          (valid.attributed u.id h).found)
        refl
  chosen u kind incoming w valid h =
      rw
        (need_unit-node nx laws backend u.id true w (valid.attributed u.id h).attributes h
          (valid.attributed u.id h).found)
        refl

  -- Where `get_related_units`, in one direction, asks the back end for the relations of a unit of a well-formed view and returns, its rows tell of every relation of the kind that the back end answered.
  pub get_related_units-TellsOf :
      FindsById backend
      → (u : CodeUnit) (kind : Text) (d : Direction) (rs : List (CodeUnit × CodeUnitRelation))
        (w : World G S) (s : S)
      → IsView nx w.0
      → in_graph nx w.0.graph u.id ≡ true
      → contains w.0.loaded_relation_kinds kind ≡ false
      → queried w.0.loaded_relations (record { unit_id = u.id; direction = d; kind = kind }) ≡ false
      → backend.get_relations u kind d w.1 ≡ (ok rs, s)
      → Returns
          (λ rows _. TellsOf rs kind rows)
          (get_related_units nx backend u kind (direction_text d) true w)
  get_related_units-TellsOf honest u kind d rs w s valid h unloaded unasked answer =
      rw (chosen u kind d w valid h)
        (get_directed-TellsOf honest u kind d rs w s valid unloaded unasked answer)
