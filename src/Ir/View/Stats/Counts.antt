-- ===== src/Ir/View/Stats/Counts.antt =====
-- What the numbers of the statistics count.
use audit_zoo_bug_byters.Base.{
  ℕ, ◌+◌, ◌≡◌, refl, ap, true, List, [], ◌∷◌, ◌++◌, Text, length, length-append, map, arith, All,
}
use audit_zoo_bug_byters.Ir.Graph.{MultiDiGraph, Edge, Attributes}
use audit_zoo_bug_byters.Ir.Backend.{ok}
use audit_zoo_bug_byters.Ir.View.{View, in_graph}
use audit_zoo_bug_byters.Ir.View.Stats.{
  GraphStats, sized, bump, count_edges, facts_of, count_facts, get_graph_stats,
}
use audit_zoo_bug_byters.Ir.View.Invariant.{IsView}
use audit_zoo_bug_byters.Ir.View.Reads.{nodes_in}
use audit_zoo_bug_byters.Ir.View.Sync.{Tag, unit_tag, relation_tag, unit_tags, all_tags}

-- The sum of the counts.
abbrev pub total : List (Text × ℕ) → ℕ
total [] = 0
total ((k, n) ∷ counts) = n + total counts

length-map : {A B : Type 0} (f : A → B) (xs : List A) → length (map f xs) ≡ length xs
length-map f [] = refl
length-map f (x ∷ xs) = omega (arith, length-map f xs)

total-bump : (kind : Text) (counts : List (Text × ℕ)) → total (bump kind counts) ≡ total counts + 1
unfolding bump
total-bump kind [] = omega arith
total-bump kind ((k, n) ∷ counts) = ground (arith, total-bump kind counts)

total-count_edges :
    (es : List Edge) (counts : List (Text × ℕ))
    → total (count_edges es counts) ≡ length es + total counts
unfolding count_edges
total-count_edges [] counts = omega arith
total-count_edges (e ∷ es) counts =
    omega (arith, total-count_edges es (bump e.key.kind counts), total-bump e.key.kind counts)

sums :
    (a : Attributes) (rest : List Tag)
    → length a.unit_facts + length rest ≡ length (map (unit_tag a.unit) a.unit_facts ++ rest)
sums a rest = omega (
  arith,
  length-append {0} (map (unit_tag a.unit) a.unit_facts) rest,
  length-map (unit_tag a.unit) a.unit_facts,
)

module _ {G : Type 0} (nx : MultiDiGraph G) where
  count_facts-tags :
      (v : View G)
      → IsView nx v
      → (ids : List Text) → All (λ i. in_graph nx v.graph i ≡ true) ids
      → count_facts nx v.graph ids ≡ ok (length (unit_tags nx v.graph ids))
  unfolding count_facts
  count_facts-tags v valid [] h = refl
  count_facts-tags v valid (i ∷ ids) h =
      let a = valid.attributed i h.0 in
      rw (facts_of, a.found, count_facts-tags v valid ids h.1)
        (ap ok (sums a.attributes (unit_tags nx v.graph ids)))

  -- The statistics of a well-formed view are returned; the facts that they count, on units and on relations, are as many as the tags that a sync writes, and the counts of the edges by kind add up to the number of the edges.
  pub get_graph_stats-counts :
      (v : View G)
      → IsView nx v
      → (stats : GraphStats) × (get_graph_stats nx v ≡ ok stats)
        × (stats.num_unit_facts + stats.num_relation_facts ≡ length (all_tags nx v))
        × (total stats.edges_by_kind ≡ stats.num_edges)
  unfolding get_graph_stats
  get_graph_stats-counts v valid =
      let facts =
        count_facts-tags v valid (nx.nodes v.graph)
          (nodes_in (nx.nodes v.graph) (nx.nodes v.graph) (λ i h. h)) in
      let tags = unit_tags nx v.graph (nx.nodes v.graph) in
      let links : List Tag = map relation_tag v.relation_facts in
      (
        record {
          num_nodes = length (nx.nodes v.graph);
          num_edges = length (nx.edges v.graph);
          num_unit_facts = length tags;
          num_relation_facts = length v.relation_facts;
          nodes_by_kind = map sized v.type_index;
          edges_by_kind = count_edges (nx.edges v.graph) [];
          loaded_unit_kinds = v.loaded_unit_kinds;
          loaded_relation_kinds = v.loaded_relation_kinds;
        },
        rw facts refl,
        omega (arith, length-append {0} tags links, length-map relation_tag v.relation_facts),
        omega (arith, total-count_edges (nx.edges v.graph) []),
      )
