-- ===== src/Ir/View/Queries.antt =====
-- auditzoo/core/ir/view.py: the queries of the graph that ask no back end, and the statistics. The
-- algorithms of networkx are parameters, with what its documentation says of a node that is missing.
use audit_zoo_bug_byters.Base.{
  ℕ, ◌≡◌, Bool, false, not, ◌||◌, Option, none, some, List, [], ◌∷◌, Text, text_eq, is_empty,
  contains, if◌then◌else◌,
}
use audit_zoo_bug_byters.Ir.Model.{CodeUnit, CodeUnitRelation}
use audit_zoo_bug_byters.Ir.Graph.{MultiDiGraph, Edge}
use audit_zoo_bug_byters.Ir.Backend.{Result, ok, raised, networkx_error, result_bind}
use audit_zoo_bug_byters.Ir.View.{units_at, View, unit_at, in_graph}

-- What `shortest_path` does: a path, or one of two exceptions.
pub data PathSearch : Type 0 where
  found : List Text → PathSearch
  no_path : PathSearch
  node_not_found : PathSearch

-- `none` is an exception of networkx.
pub record Algorithms (G : Type 0) : Type 0 where
  pub edge_subgraph : G → List Edge → G
  pub descendants : G → Text → Option (List Text)
  pub nodes_within : G → Text → ℕ → Option (List Text)
  pub shortest_path : G → Text → Text → PathSearch

-- An edge begins or ends there.
abbrev pub touches : List Edge → Text → Bool
touches [] i = false
touches (e ∷ es) i = text_eq e.source i || text_eq e.target i || touches es i

-- A subgraph by edges has their ends for its nodes, and a search from a node that is not there raises.
pub record IsAlgorithms {G : Type 0} (nx : MultiDiGraph G) (alg : Algorithms G) : Type 0 where
  pub nodes-edge_subgraph :
      (g : G) (es : List Edge) (i : Text)
      → contains (nx.nodes (alg.edge_subgraph g es)) i ≡ touches es i
  pub descendants_missing :
      (g : G) (i : Text) → contains (nx.nodes g) i ≡ false → alg.descendants g i ≡ none
  pub within_missing :
      (g : G) (i : Text) (n : ℕ) → contains (nx.nodes g) i ≡ false → alg.nodes_within g i n ≡ none

-- `filter`, on the units of the ends and the relation. The dict of an edge is empty.
abbrev pub EdgeFilter : Type 0
EdgeFilter = CodeUnit → CodeUnit → CodeUnitRelation → Bool

-- `reachable_ids.discard(unit_id)`
unfoldable pub discard : Text → List Text → List Text
discard i [] = []
discard i (j ∷ js) = let rest = discard i js in if text_eq j i then rest else j ∷ rest

unfoldable pub or_networkx_error : Option (List Text) → Result (List Text)
or_networkx_error none = raised networkx_error
or_networkx_error (some ids) = ok ids

module _ {G : Type 0} (nx : MultiDiGraph G) (alg : Algorithms G) where
  -- The edges that the filter keeps.
  unfoldable pub kept_edges : EdgeFilter → G → List Edge → Result (List Edge)
  unfolding unit_at
  kept_edges filter g [] = ok []
  kept_edges filter g (e ∷ es) =
      let rest = kept_edges filter g es in
      result_bind (unit_at nx g e.source) (λ u.
        result_bind (unit_at nx g e.target)
          (λ v. result_bind rest (λ kept. ok (if filter u v e.key then e ∷ kept else kept))))

  unfoldable pub filter_graph : EdgeFilter → View G → Result G
  unfolding kept_edges
  filter_graph filter v =
      result_bind (kept_edges filter v.graph (nx.edges v.graph))
        (λ es. ok (alg.edge_subgraph v.graph es))

  -- The identifiers that are reached, to any depth or to a depth.
  unfoldable pub reached : G → Text → Option ℕ → Result (List Text)
  unfolding or_networkx_error discard
  reached g unit_id none = or_networkx_error (alg.descendants g unit_id)
  reached g unit_id (some max_depth) =
      result_bind (or_networkx_error (alg.nodes_within g unit_id max_depth))
        (λ ids. ok (discard unit_id ids))

  -- The units of the identifiers that are in the graph.
  unfoldable pub known_units : G → List Text → Result (List CodeUnit)
  unfolding unit_at contains
  known_units g [] = ok []
  known_units g (i ∷ ids) =
      let rest = known_units g ids in
      if in_graph nx g i
      then result_bind (unit_at nx g i) (λ u. result_bind rest (λ us. ok (u ∷ us)))
      else rest

  unfoldable pub get_reachable_units :
      CodeUnit → EdgeFilter → Option ℕ → View G → Result (List CodeUnit)
  unfolding contains filter_graph reached known_units
  get_reachable_units unit filter max_depth v =
      if is_empty unit.id || not (in_graph nx v.graph unit.id)
      then ok []
      else result_bind (filter_graph filter v) (λ subgraph.
        result_bind (reached subgraph unit.id max_depth) (λ ids. known_units v.graph ids))

  unfoldable pub path_units : G → PathSearch → Result (Option (List CodeUnit))
  unfolding units_at
  path_units g no_path = ok none
  path_units g node_not_found = raised networkx_error
  path_units g (found ids) = result_bind (units_at nx g ids) (λ us. ok (some us))

  unfoldable pub find_shortest_path :
      CodeUnit → CodeUnit → EdgeFilter → View G → Result (Option (List CodeUnit))
  unfolding filter_graph path_units
  find_shortest_path from_unit to_unit filter v =
      if is_empty from_unit.id || is_empty to_unit.id
      then ok none
      else result_bind (filter_graph filter v)
          (λ subgraph. path_units v.graph (alg.shortest_path subgraph from_unit.id to_unit.id))
