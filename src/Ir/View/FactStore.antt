-- ===== src/Ir/View/FactStore.antt =====
-- auditzoo/core/ir/view.py: the facts of `IRView`; auditzoo/core/ir/facts/base.py: what a relation
-- fact does to the graph.
use audit_zoo_bug_byters.Base.{
  Bool, true, Option, none, some, List, [], ◌∷◌, ◌++◌, Text, if◌then◌else◌,
}
use audit_zoo_bug_byters.Ir.Model.{
  CodeUnit, UnitFact, RelationFact, GraphUpdateOp, add_edge, remove_edge,
}
use audit_zoo_bug_byters.Ir.Graph.{MultiDiGraph, Edge, has}
use audit_zoo_bug_byters.Ir.Backend.{
  Backend, Result, ok, raised, key_error, Action, pure, reads, ◌>>=◌, ◌>>◌,
}
use audit_zoo_bug_byters.Ir.View.{View, World, ask}
use audit_zoo_bug_byters.Ir.View.Units.{update, get_all_units}
use audit_zoo_bug_byters.Ir.View.Relations.{need_unit}

-- `isinstance(fact, fact_cls)` where a class is given
unfoldable pub of_class : {A : Type 0} → Option (A → Bool) → List A → List A
of_class none facts = facts
of_class (some is_instance) [] = []
of_class (some is_instance) (fact ∷ facts) =
    let rest = of_class (some is_instance) facts in if is_instance fact then fact ∷ rest else rest

module _ {G S : Type 0} (nx : MultiDiGraph G) (backend : Backend S) where
  -- `GraphUpdater.execute`, by the operation
  unfoldable pub execute : GraphUpdateOp → Edge → G → G
  unfolding has
  execute add_edge e g = nx.add_edge e g
  execute remove_edge e g = if has (nx.edges g) e then nx.remove_edge e g else g

  -- The edge that a fact is about.
  abbrev pub fact_edge : RelationFact → Edge
  fact_edge fact = record {
    source = fact.source_node_id;
    target = fact.target_node_id;
    key = fact.graph_updater.relation;
  }

  -- `fact.apply_graph_update(self._graph)`
  unfoldable pub apply_graph_update : RelationFact → View G → View G
  unfolding execute
  apply_graph_update fact v = record v {
    graph = execute fact.graph_updater.operation (fact_edge fact) v.graph;
  }

  -- `self._graph.nodes[unit.id]["unit_facts"]`
  unfoldable pub facts_at : G → Text → Result (List UnitFact)
  facts_at g unit_id = elim (nx.attributes g unit_id) [
    | none ↦ raised key_error
    | some a ↦ ok a.unit_facts
  ]

  unfoldable pub put_fact : Text → UnitFact → View G → View G
  put_fact unit_id fact v = record v { graph = nx.append_fact unit_id fact v.graph }

  unfoldable pub add_unit_fact : CodeUnit → UnitFact → Bool → Action (World G S) (Unit {0})
  unfolding need_unit facts_at put_fact
  add_unit_fact unit fact fetch_backend = do
    need_unit nx backend unit.id fetch_backend
    facts ← reads (λ w. facts_at w.0.graph unit.id)
    update (put_fact unit.id fact)

  -- `self._relation_facts.append(fact)`
  abbrev pub keep_fact : RelationFact → View G → View G
  keep_fact fact v = record v { relation_facts = v.relation_facts ++ (fact ∷ []) }

  unfoldable pub add_relation_fact : RelationFact → Bool → Action (World G S) (Unit {0})
  unfolding need_unit apply_graph_update
  add_relation_fact fact fetch_backend = do
    need_unit nx backend fact.source_node_id fetch_backend
    need_unit nx backend fact.target_node_id fetch_backend
    update (keep_fact fact)
    update (apply_graph_update fact)

  unfoldable pub get_unit_facts :
      CodeUnit → Option (UnitFact → Bool) → Bool → Action (World G S) (List UnitFact)
  unfolding need_unit facts_at of_class
  get_unit_facts unit fact_cls fetch_backend = do
    need_unit nx backend unit.id fetch_backend
    unit_facts ← reads (λ w. facts_at w.0.graph unit.id)
    pure (of_class fact_cls unit_facts)

  unfoldable pub get_relation_facts : Option (RelationFact → Bool) → View G → List RelationFact
  unfolding of_class
  get_relation_facts fact_cls v = of_class fact_cls v.relation_facts

  -- `for fact in facts: await self.add_unit_fact(unit, fact)`
  unfoldable pub add_unit_facts : CodeUnit → List UnitFact → Action (World G S) (Unit {0})
  unfolding add_unit_fact
  add_unit_facts unit [] = pure tt
  add_unit_facts unit (fact ∷ facts) = do add_unit_fact unit fact true; add_unit_facts unit facts

  -- `_load_unit_facts_from_backend`
  unfoldable pub load_unit_facts : CodeUnit → Action (World G S) (Unit {0})
  unfolding add_unit_facts
  load_unit_facts unit = do facts ← ask (backend.get_unit_tags unit); add_unit_facts unit facts

  unfoldable pub load_facts_of : List CodeUnit → Action (World G S) (Unit {0})
  unfolding load_unit_facts
  load_facts_of [] = pure tt
  load_facts_of (unit ∷ units) = do load_unit_facts unit; load_facts_of units

  unfoldable pub add_relation_facts : List RelationFact → Action (World G S) (Unit {0})
  unfolding add_relation_fact
  add_relation_facts [] = pure tt
  add_relation_facts (fact ∷ facts) = do add_relation_fact fact true; add_relation_facts facts

  -- `_load_relation_facts_from_backend`
  unfoldable pub load_relation_facts : Action (World G S) (Unit {0})
  unfolding add_relation_facts
  load_relation_facts = do facts ← ask backend.get_relation_tags; add_relation_facts facts

  unfoldable pub load_facts : Action (World G S) (Unit {0})
  unfolding load_facts_of load_relation_facts get_all_units
  load_facts = do
    units ← reads (λ w. get_all_units nx backend w.0)
    load_facts_of units
    load_relation_facts
