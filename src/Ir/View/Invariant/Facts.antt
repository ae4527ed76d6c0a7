-- ===== src/Ir/View/Invariant/Facts.antt =====
-- The methods on facts keep the invariant.
use audit_zoo_bug_byters.Base.{
  ◌≡◌, refl, sym, ◌∙◌, ap, Bool, Bool-cases, inl, inr, true, Option, some, List, [], ◌∷◌, ◌++◌,
  Text, text_eq, contains,
}
use audit_zoo_bug_byters.Ir.Model.{
  CodeUnit, UnitFact, RelationFact, GraphUpdateOp, add_edge, remove_edge,
}
use audit_zoo_bug_byters.Ir.Graph.{MultiDiGraph, IsMultiDiGraph, Attributes, Edge, has}
use audit_zoo_bug_byters.Ir.Backend.{Backend}
use audit_zoo_bug_byters.Ir.View.{View, in_graph}
use audit_zoo_bug_byters.Ir.View.Units.{get_all_units}
use audit_zoo_bug_byters.Ir.View.FactStore.{
  of_class, execute, fact_edge, apply_graph_update, facts_at, put_fact, add_unit_fact, keep_fact,
  add_relation_fact, get_unit_facts, add_unit_facts, load_unit_facts, load_facts_of,
  add_relation_facts, load_relation_facts, load_facts,
}
use audit_zoo_bug_byters.Ir.View.Invariant.{
  Extends, Extends-refl, Extends-trans, Extends-same_graph, Keeps, >>=-Keeps,
}
use audit_zoo_bug_byters.Ir.View.Invariant.Units.{ask-Keeps, pure-Keeps, reads-Keeps, update-Keeps}
use audit_zoo_bug_byters.Ir.View.Invariant.Checks.{
  FindsById, need_unit-Keeps, need_both-Keeps, Extends-add_edge,
}

module _ {G S : Type 0} (nx : MultiDiGraph G) (laws : IsMultiDiGraph nx) (backend : Backend S) where
  -- A change that leaves the nodes and what they are named.
  Extends-same_nodes :
      (v : View G) (g : G)
      → ((i : Text) → in_graph nx g i ≡ in_graph nx v.graph i)
      → ((i : Text) (a : Attributes)
          → nx.attributes v.graph i ≡ some a
          → (b : Attributes) × (nx.attributes g i ≡ some b) × (b.unit ≡ a.unit))
      → Extends nx v (record v { graph = g })
  Extends-same_nodes v g nodes attrs = record {
    kept = λ valid. record {
      attributed = λ i h.
          let a = valid.attributed i (sym (nodes i) ∙ h) in
          let (b, found, unit) = attrs i a.attributes a.found in
          record {
            attributes = b;
            found = found;
            named = ap (λ u. u.id) unit ∙ a.named;
            listed = rw unit a.listed;
          };
      indexed = λ k i h. nodes i ∙ valid.indexed k i h;
    };
    grown = λ i h. nodes i ∙ h;
  }

  put_fact-Extends :
      (i : Text) (fact : UnitFact) (v : View G) → Extends nx v (put_fact nx backend i fact v)
  unfolding put_fact
  put_fact-Extends i fact v =
      Extends-same_nodes v (nx.append_fact i fact v.graph)
        (λ j. ap (λ l. contains l j) (laws.nodes-append_fact i fact v.graph))
        λ j a e. elim (Bool-cases (text_eq i j)) [
          | inl same ↦ (
            record a { unit_facts = a.unit_facts ++ (fact ∷ []) },
            rw (laws.attributes-append_fact, same, e) refl,
            refl,
          )
          | inr apart ↦ (a, rw (laws.attributes-append_fact, apart) e, refl)
        ]

  remove_edge-Extends :
      (e : Edge) (v : View G) → Extends nx v (record v { graph = nx.remove_edge e v.graph })
  remove_edge-Extends e v =
      Extends-same_nodes v (nx.remove_edge e v.graph) (laws.nodes-remove_edge e v.graph)
        λ j a p. (a, laws.attributes-remove_edge e v.graph j ∙ p, refl)

  execute-Extends :
      (op : GraphUpdateOp) (e : Edge) (v : View G)
      → in_graph nx v.graph e.source ≡ true
      → in_graph nx v.graph e.target ≡ true
      → Extends nx v (record v { graph = execute nx backend op e v.graph })
  unfolding execute
  execute-Extends add_edge e v p q = Extends-add_edge nx laws backend e v p q
  execute-Extends remove_edge e v p q = elim (Bool-cases (has (nx.edges v.graph) e)) [
    | inl there ↦ rw there (remove_edge-Extends e v)
    | inr missing ↦ rw missing (Extends-refl nx v)
  ]

  module _ (honest : FindsById backend) where
    pub add_unit_fact-Keeps :
        (u : CodeUnit) (fact : UnitFact) (b : Bool) → Keeps nx (add_unit_fact nx backend u fact b)
    unfolding add_unit_fact
    add_unit_fact-Keeps u fact b = >>=-Keeps nx (need_unit-Keeps nx laws backend honest u.id b) λ _.
        >>=-Keeps nx (reads-Keeps nx laws backend (λ w. facts_at nx backend w.0.graph u.id)) λ _.
          update-Keeps nx laws backend (put_fact nx backend u.id fact) (put_fact-Extends u.id fact)

    record_fact-Extends :
        (fact : RelationFact) (v : View G)
        → in_graph nx v.graph fact.source_node_id ≡ true
        → in_graph nx v.graph fact.target_node_id ≡ true
        → Extends nx v (apply_graph_update nx backend fact (keep_fact nx backend fact v))
    unfolding apply_graph_update
    record_fact-Extends fact v p q =
        let u = keep_fact nx backend fact v in
        Extends-trans nx v u (apply_graph_update nx backend fact u)
          (Extends-same_graph nx v u refl (λ _. refl))
          (execute-Extends fact.graph_updater.operation (fact_edge nx backend fact) u p q)

    pub add_relation_fact-Keeps :
        (fact : RelationFact) (b : Bool) → Keeps nx (add_relation_fact nx backend fact b)
    unfolding add_relation_fact
    add_relation_fact-Keeps fact b =
        need_both-Keeps nx laws backend honest fact.source_node_id fact.target_node_id b b
          (λ v. apply_graph_update nx backend fact (keep_fact nx backend fact v))
          (record_fact-Extends fact)

    pub get_unit_facts-Keeps :
        (u : CodeUnit) (c : Option (UnitFact → Bool)) (b : Bool)
        → Keeps nx (get_unit_facts nx backend u c b)
    unfolding get_unit_facts
    get_unit_facts-Keeps u c b = >>=-Keeps nx (need_unit-Keeps nx laws backend honest u.id b) λ _.
        >>=-Keeps nx (reads-Keeps nx laws backend (λ w. facts_at nx backend w.0.graph u.id))
          λ facts. pure-Keeps nx laws backend (of_class c facts)

    add_unit_facts-Keeps :
        (u : CodeUnit) (facts : List UnitFact) → Keeps nx (add_unit_facts nx backend u facts)
    unfolding add_unit_facts
    add_unit_facts-Keeps u [] = pure-Keeps nx laws backend tt
    add_unit_facts-Keeps u (fact ∷ facts) =
        >>=-Keeps nx (add_unit_fact-Keeps u fact true) λ _. add_unit_facts-Keeps u facts

    load_facts_of-Keeps : (us : List CodeUnit) → Keeps nx (load_facts_of nx backend us)
    unfolding load_facts_of load_unit_facts
    load_facts_of-Keeps [] = pure-Keeps nx laws backend tt
    load_facts_of-Keeps (u ∷ us) =
        >>=-Keeps nx
          (>>=-Keeps nx (ask-Keeps nx laws backend (backend.get_unit_tags u))
            (add_unit_facts-Keeps u))
          λ _. load_facts_of-Keeps us

    add_relation_facts-Keeps :
        (facts : List RelationFact) → Keeps nx (add_relation_facts nx backend facts)
    unfolding add_relation_facts
    add_relation_facts-Keeps [] = pure-Keeps nx laws backend tt
    add_relation_facts-Keeps (fact ∷ facts) =
        >>=-Keeps nx (add_relation_fact-Keeps fact true) λ _. add_relation_facts-Keeps facts

    pub load_facts-Keeps : Keeps nx (load_facts nx backend)
    unfolding load_facts load_relation_facts
    load_facts-Keeps =
        >>=-Keeps nx (reads-Keeps nx laws backend (λ w. get_all_units nx backend w.0)) λ us.
          >>=-Keeps nx (load_facts_of-Keeps us) λ _.
            >>=-Keeps nx (ask-Keeps nx laws backend backend.get_relation_tags)
              add_relation_facts-Keeps
