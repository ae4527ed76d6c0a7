-- ===== src/Ir/View/Recall.antt =====
-- What the view tells of the facts that were added to it.
use audit_zoo_bug_byters.Base.{
  ◌≡◌, refl, sym, ap, ◌∙◌, Bool, Bool-cases, inl, inr, true, false, not, ◌||◌, ◌&&◌, none, some,
  List, [], ◌∷◌, ◌++◌, Text, text_eq, contains, arith, map,
}
use audit_zoo_bug_byters.Base.Strings.Laws.{text_eq_refl, text_eq_sound}
use audit_zoo_bug_byters.Ir.Model.{CodeUnit, UnitFact, GraphUpdateOp, add_edge, remove_edge}
use audit_zoo_bug_byters.Ir.Graph.{MultiDiGraph, IsMultiDiGraph, Attributes, Edge, has, same_edge}
use audit_zoo_bug_byters.Ir.Graph.Edges.{same_edge_sound}
use audit_zoo_bug_byters.Ir.Backend.{Backend, ok}
use audit_zoo_bug_byters.Ir.View.{View, World, in_graph, unit_at, add_unit}
use audit_zoo_bug_byters.Ir.View.Units.{
  get_unit, has_unit, add_units, load_kind, get_all_units_by_kind,
}
use audit_zoo_bug_byters.Ir.View.Relations.{need_unit}
use audit_zoo_bug_byters.Ir.View.FactStore.{
  of_class, execute, facts_at, put_fact, add_unit_fact, get_unit_facts,
}
use audit_zoo_bug_byters.Ir.View.Invariant.{IsView}

abbrev pub execute_spec : GraphUpdateOp → Bool → Bool → Bool
execute_spec add_edge same before = same || before
execute_spec remove_edge same before = not same && before

-- What a view that has gained facts of one unit has kept: the nodes, the edges, the unit, what the other
-- nodes have, and every field but the graph.
pub record GainedFacts {G : Type 0} (nx : MultiDiGraph G) (i : Text) (before after : View G)
    : Type 0 where
  pub nodes : nx.nodes after.graph ≡ nx.nodes before.graph
  pub edges : nx.edges after.graph ≡ nx.edges before.graph
  pub unit : unit_at nx after.graph i ≡ unit_at nx before.graph i
  pub others :
      (j : Text) → text_eq i j ≡ false → nx.attributes after.graph j ≡ nx.attributes before.graph j
  pub type_index : after.type_index ≡ before.type_index
  pub relation_facts : after.relation_facts ≡ before.relation_facts
  pub loaded_units : after.loaded_units ≡ before.loaded_units
  pub loaded_relations : after.loaded_relations ≡ before.loaded_relations
  pub loaded_unit_kinds : after.loaded_unit_kinds ≡ before.loaded_unit_kinds
  pub loaded_relation_kinds : after.loaded_relation_kinds ≡ before.loaded_relation_kinds

module _ {G S : Type 0} (nx : MultiDiGraph G) (laws : IsMultiDiGraph nx) (backend : Backend S) where
  -- A check of a unit that is in the view changes nothing.
  pub need_unit-node :
      (i : Text) (b : Bool) (w : World G S) (a : Attributes)
      → in_graph nx w.0.graph i ≡ true
      → nx.attributes w.0.graph i ≡ some a
      → need_unit nx backend i b w ≡ (ok tt, w)
  unfolding need_unit has_unit get_unit unit_at
  need_unit-node i b w a h e = rw (h, unit_at, e) refl

  pub get_unit_facts-node :
      (u : CodeUnit) (b : Bool) (w : World G S) (a : Attributes)
      → in_graph nx w.0.graph u.id ≡ true
      → nx.attributes w.0.graph u.id ≡ some a
      → get_unit_facts nx backend u none b w ≡ (ok a.unit_facts, w)
  unfolding get_unit_facts facts_at of_class
  get_unit_facts-node u b w a h e = rw (need_unit-node u.id b w a h e, facts_at, e) refl

  add_unit_fact-node :
      (u : CodeUnit) (fact : UnitFact) (b : Bool) (w : World G S) (a : Attributes)
      → in_graph nx w.0.graph u.id ≡ true
      → nx.attributes w.0.graph u.id ≡ some a
      → add_unit_fact nx backend u fact b w ≡ (ok tt, (put_fact nx backend u.id fact w.0, w.1))
  unfolding add_unit_fact facts_at
  add_unit_fact-node u fact b w a h e = rw (need_unit-node u.id b w a h e, facts_at, e) refl

  GainedFacts-put_fact :
      (i : Text) (fact : UnitFact) (v : View G) (a : Attributes)
      → nx.attributes v.graph i ≡ some a
      → GainedFacts nx i v (put_fact nx backend i fact v)
  unfolding put_fact unit_at
  GainedFacts-put_fact i fact v a found = record {
    nodes = laws.nodes-append_fact i fact v.graph;
    edges = laws.edges-append_fact i fact v.graph;
    unit = rw (unit_at, laws.attributes-append_fact, text_eq_refl i, found) refl;
    others = λ j apart. rw (laws.attributes-append_fact, apart) refl;
    type_index = refl;
    relation_facts = refl;
    loaded_units = refl;
    loaded_relations = refl;
    loaded_unit_kinds = refl;
    loaded_relation_kinds = refl;
  }

  -- The facts of a unit of a well-formed view are, once a fact has been added to it, those before it and the fact. None of the calls raises or changes the state of the back end, and beside these facts the view keeps its nodes with what they have, its edges and its other fields.
  pub get_unit_facts-add_unit_fact :
      (u : CodeUnit) (fact : UnitFact) (b : Bool) (w : World G S)
      → IsView nx w.0
      → in_graph nx w.0.graph u.id ≡ true
      → (facts : List UnitFact) × (v : View G) × (get_unit_facts nx backend u none b w
          ≡ (ok facts, w))
        × (add_unit_fact nx backend u fact b w ≡ (ok tt, (v, w.1)))
        × (get_unit_facts nx backend u none b (v, w.1) ≡ (ok (facts ++ (fact ∷ [])), (v, w.1)))
        × GainedFacts nx u.id w.0 v
  unfolding put_fact
  get_unit_facts-add_unit_fact u fact b w valid h =
      let node = valid.attributed u.id h in
      let a = node.attributes in
      let v : View G = put_fact nx backend u.id fact w.0 in
      (
        a.unit_facts,
        v,
        get_unit_facts-node u b w a h node.found,
        add_unit_fact-node u fact b w a h node.found,
        get_unit_facts-node u b (v, w.1) (record a { unit_facts = a.unit_facts ++ (fact ∷ []) })
            (ap (λ l. contains l u.id) (laws.nodes-append_fact u.id fact w.0.graph) ∙ h)
            (rw (laws.attributes-append_fact, text_eq_refl u.id, node.found) refl),
        GainedFacts-put_fact u.id fact w.0 a node.found,
      )

  -- The edges after a fact's update of the graph: with `add_edge` the fact's edge and those before, with `remove_edge` those before without the fact's.
  pub has-execute :
      (op : GraphUpdateOp) (e : Edge) (g : G) (d : Edge)
      → has (nx.edges (execute nx backend op e g)) d
        ≡ execute_spec op (same_edge e d) (has (nx.edges g) d)
  unfolding execute
  has-execute add_edge e g d = laws.has-add_edge e g d
  has-execute remove_edge e g d = elim (Bool-cases (has (nx.edges g) e)) [
    | inl there ↦ rw there (laws.has-remove_edge e g d)
    | inr missing ↦ rw missing (elim (Bool-cases (same_edge e d)) [
      | inl same ↦
          let p = same_edge_sound e d same in rw same (ap (has (nx.edges g)) (sym p) ∙ missing)
      | inr apart ↦ rw apart refl
    ])
  ]

  facts_at-add_unit :
      (u : CodeUnit) (v : View G) → facts_at nx backend (add_unit nx u v).graph u.id ≡ ok []
  unfolding facts_at add_unit
  facts_at-add_unit u v = rw (facts_at, laws.attributes-add_node, text_eq_refl u.id) refl

  emptied_kept :
      (u : CodeUnit) (v : View G) (i : Text)
      → facts_at nx backend v.graph i ≡ ok []
      → facts_at nx backend (add_unit nx u v).graph i ≡ ok []
  unfolding facts_at add_unit
  emptied_kept u v i h = elim (Bool-cases (text_eq u.id i)) [
    | inl same ↦ rw (facts_at, laws.attributes-add_node, same) refl
    | inr apart ↦ rw (facts_at, laws.attributes-add_node, apart) h
  ]

  add_units-keep :
      (us : List CodeUnit) (v : View G) (i : Text)
      → facts_at nx backend v.graph i ≡ ok []
      → facts_at nx backend (add_units nx backend us v).graph i ≡ ok []
  unfolding add_units
  add_units-keep [] v i h = h
  add_units-keep (u ∷ us) v i h = add_units-keep us (add_unit nx u v) i (emptied_kept u v i h)

  facts_at-add_units :
      (us : List CodeUnit) (v : View G) (i : Text)
      → contains (map (λ u. u.id) us) i ≡ true
      → facts_at nx backend (add_units nx backend us v).graph i ≡ ok []
  unfolding add_units contains
  facts_at-add_units [] v i h = cc
  facts_at-add_units (u ∷ us) v i h = elim (Bool-cases (text_eq u.id i)) [
    | inl same ↦
        add_units-keep us (add_unit nx u v) i
          (let e = text_eq_sound u.id i same in rw (← e) (facts_at-add_unit u v))
    | inr apart ↦ facts_at-add_units us (add_unit nx u v) i (ground arith)
  ]

  -- The first listing of a kind with the back end loses the facts of every unit that the back end lists.
  pub get_all_units_by_kind-loses_facts :
      (kind : Text) (w : World G S) (us : List CodeUnit) (s : S) (i : Text)
      → contains w.0.loaded_unit_kinds kind ≡ false
      → backend.get_code_units kind w.1 ≡ (ok us, s)
      → contains (map (λ u. u.id) us) i ≡ true
      → facts_at nx backend (get_all_units_by_kind nx backend kind true w).1.0.graph i ≡ ok []
  unfolding get_all_units_by_kind load_kind
  get_all_units_by_kind-loses_facts kind w us s i new answer listed =
      rw (new, answer) (facts_at-add_units us w.0 i listed)
