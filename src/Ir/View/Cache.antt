-- ===== src/Ir/View/Cache.antt =====
-- auditzoo/core/ir/view.py: the preload, the sync to the back end, the reload and the cleanup of
-- `IRView`. The variables of the environment are two texts, empty where one is not set.
use audit_zoo_bug_byters.Base.{
  Bool, true, false, not, ◌||◌, none, List, [], ◌∷◌, Text, codes, text_eq, lower, if◌then◌else◌,
}
use audit_zoo_bug_byters.Ir.Model.{CodeUnit, UnitFact, RelationFact}
use audit_zoo_bug_byters.Ir.Graph.{MultiDiGraph}
use audit_zoo_bug_byters.Ir.Backend.{Backend, Action, pure, gets, reads, ◌>>=◌, ◌>>◌}
use audit_zoo_bug_byters.Ir.View.{World, ask, new_view, unit_at}
use audit_zoo_bug_byters.Ir.View.Units.{update, get_all_units_by_kind}
use audit_zoo_bug_byters.Ir.View.Relations.{get_all_relations_by_kind}
use audit_zoo_bug_byters.Ir.View.FactStore.{get_unit_facts, load_facts}

-- The kinds that the preload asks for, and the two variables of the environment.
pub record Preload : Type 0 where
  pub function_kind : Text
  pub file_kind : Text
  pub calls_kind : Text
  pub skip_calls : Text
  pub skip_facts : Text

-- `value.lower() in {"1", "true", "yes"}`
unfoldable pub is_set : Text → Bool
unfolding lower text_eq
is_set value =
    text_eq (lower value) (codes "1")
    || text_eq (lower value) (codes "true")
    || text_eq (lower value) (codes "yes")

module _ {G S : Type 0} (nx : MultiDiGraph G) (backend : Backend S) where
  unfoldable pub preload_calls : Preload → Action (World G S) (Unit {0})
  unfolding is_set get_all_relations_by_kind
  preload_calls p =
      if not (is_set p.skip_calls)
      then (do rows ← get_all_relations_by_kind nx backend p.calls_kind true; pure tt)
      else pure tt

  unfoldable pub preload_facts : Preload → Action (World G S) (Unit {0})
  unfolding is_set load_facts
  preload_facts p = if not (is_set p.skip_facts) then load_facts nx backend else pure tt

  unfoldable pub preload_from_backend : Preload → Action (World G S) (Unit {0})
  unfolding get_all_units_by_kind preload_calls preload_facts
  preload_from_backend p = do
    functions ← get_all_units_by_kind nx backend p.function_kind true
    files ← get_all_units_by_kind nx backend p.file_kind true
    preload_calls p
    preload_facts p

  unfoldable pub set_unit_tags : CodeUnit → List UnitFact → Action (World G S) (Unit {0})
  set_unit_tags unit [] = pure tt
  set_unit_tags unit (fact ∷ facts) = do
    ask (backend.set_unit_tag unit fact)
    set_unit_tags unit facts

  -- `_store_unit_facts_to_backend`
  unfoldable pub store_unit_facts : CodeUnit → Action (World G S) (Unit {0})
  unfolding get_unit_facts set_unit_tags
  store_unit_facts unit = do
    facts ← get_unit_facts nx backend unit none false
    set_unit_tags unit facts

  -- `for node_id in self._graph.nodes: ...`, which adds no node.
  unfoldable pub store_facts_of : List Text → Action (World G S) (Unit {0})
  unfolding unit_at store_unit_facts
  store_facts_of [] = pure tt
  store_facts_of (node_id ∷ ids) = do
    unit ← reads (λ w. unit_at nx w.0.graph node_id)
    store_unit_facts unit
    store_facts_of ids

  -- `_store_relation_facts_to_backend`
  unfoldable pub store_relation_facts : List RelationFact → Action (World G S) (Unit {0})
  store_relation_facts [] = pure tt
  store_relation_facts (fact ∷ facts) = do
    ask (backend.set_relation_tag fact)
    store_relation_facts facts

  unfoldable pub sync_backend : Action (World G S) (Unit {0})
  unfolding store_facts_of store_relation_facts
  sync_backend = do
    ids ← gets (λ w. nx.nodes w.0.graph)
    store_facts_of ids
    facts ← gets (λ w. w.0.relation_facts)
    store_relation_facts facts

  unfoldable pub reload : Preload → Action (World G S) (Unit {0})
  unfolding preload_from_backend
  reload p = do update (λ v. new_view nx); ask backend.reload; preload_from_backend p

  unfoldable pub cleanup : Bool → Action (World G S) (Unit {0})
  unfolding sync_backend
  cleanup sync_to_backend = do
    if sync_to_backend then sync_backend else pure tt
    update (λ v. new_view nx)
