-- ===== src/Ir/View/Stats.antt =====
-- auditzoo/core/ir/view.py: `get_graph_stats`. The texts of the kinds stand for the kinds.
pub mod Counts
use audit_zoo_bug_byters.Base.{
  ℕ, suc, ◌+◌, Bool, Option, none, some, List, [], ◌∷◌, Text, text_eq, length, map, if◌then◌else◌,
}
use audit_zoo_bug_byters.Ir.Graph.{MultiDiGraph, Edge, Attributes}
use audit_zoo_bug_byters.Ir.Backend.{Result, ok, raised, key_error, result_bind}
use audit_zoo_bug_byters.Ir.View.{View}

pub record GraphStats : Type 0 where
  pub num_nodes : ℕ
  pub num_edges : ℕ
  pub num_unit_facts : ℕ
  pub num_relation_facts : ℕ
  pub nodes_by_kind : List (Text × ℕ)
  pub edges_by_kind : List (Text × ℕ)
  pub loaded_unit_kinds : List Text
  pub loaded_relation_kinds : List Text

-- `edges_by_kind[kind] += 1`
unfoldable pub bump : Text → List (Text × ℕ) → List (Text × ℕ)
bump kind [] = (kind, 1) ∷ []
bump kind ((k, n) ∷ counts) =
    let rest = bump kind counts in if text_eq k kind then (k, n + 1) ∷ counts else (k, n) ∷ rest

-- The loop over the edges.
unfoldable pub count_edges : List Edge → List (Text × ℕ) → List (Text × ℕ)
unfolding bump
count_edges [] counts = counts
count_edges (e ∷ es) counts = count_edges es (bump e.key.kind counts)

-- `len(data["unit_facts"])`
unfoldable pub facts_of : Option Attributes → Result ℕ
facts_of none = raised key_error
facts_of (some a) = ok (length a.unit_facts)

-- `len(node_ids)`
abbrev pub sized : Text × List Text → Text × ℕ
sized (kind, ids) = (kind, length ids)

module _ {G : Type 0} (nx : MultiDiGraph G) where
  -- The sum over the nodes.
  unfoldable pub count_facts : G → List Text → Result ℕ
  unfolding facts_of
  count_facts g [] = ok 0
  count_facts g (i ∷ ids) =
      let rest = count_facts g ids in
      result_bind (facts_of (nx.attributes g i)) (λ n. result_bind rest (λ m. ok (n + m)))

  unfoldable pub get_graph_stats : View G → Result GraphStats
  unfolding count_facts count_edges
  get_graph_stats v = result_bind (count_facts v.graph (nx.nodes v.graph)) (λ total_unit_facts.
      ok (record {
        num_nodes = length (nx.nodes v.graph);
        num_edges = length (nx.edges v.graph);
        num_unit_facts = total_unit_facts;
        num_relation_facts = length v.relation_facts;
        nodes_by_kind = map sized v.type_index;
        edges_by_kind = count_edges (nx.edges v.graph) [];
        loaded_unit_kinds = v.loaded_unit_kinds;
        loaded_relation_kinds = v.loaded_relation_kinds;
      }))
