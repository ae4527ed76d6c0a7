-- ===== src/Ir/Graph.antt =====
-- The directed multigraph of the package networkx, which the view keeps its units in: the operations
-- that the view calls, and what their documentation says of them. A node is there with or without
-- attributes: an edge brings its ends in without any.
pub mod Edges
pub mod Plain
use audit_zoo_bug_byters.Base.{
  ◌≡◌, Bool, true, false, not, ◌||◌, ◌&&◌, Option, none, some, List, [], ◌∷◌, ◌++◌, Text, text_eq,
  contains, if◌then◌else◌,
}
use audit_zoo_bug_byters.Ir.Model.{CodeUnit, CodeUnitRelation, UnitFact}

-- The attributes that the view gives to a node.
pub record Attributes : Type 0 where
  pub unit : CodeUnit
  pub unit_facts : List UnitFact

-- Two ends and the key.
pub record Edge : Type 0 where
  pub source : Text
  pub target : Text
  pub key : CodeUnitRelation

-- `key == other`
unfoldable pub same_relation : CodeUnitRelation → CodeUnitRelation → Bool
same_relation k other = text_eq k.kind other.kind && text_eq k.metadata other.metadata

unfoldable pub same_edge : Edge → Edge → Bool
unfolding same_relation
same_edge e other =
    text_eq e.source other.source && text_eq e.target other.target && same_relation e.key other.key

-- `e in edges`
unfoldable pub has : List Edge → Edge → Bool
has [] e = false
has (d ∷ ds) e = same_edge d e || has ds e

-- `edges` are all edges with their keys, in the order of the iteration. `attributes` answers `none`
-- where a node, or its attribute `unit`, is missing.
pub record MultiDiGraph (G : Type 0) : Type 0 where
  pub empty : G
  pub nodes : G → List Text
  pub attributes : G → Text → Option Attributes
  pub edges : G → List Edge
  pub out_edges : G → Text → List Edge
  pub in_edges : G → Text → List Edge
  pub add_node : Text → Attributes → G → G
  pub append_fact : Text → UnitFact → G → G
  pub add_edge : Edge → G → G
  pub remove_edge : Edge → G → G

abbrev pub with_fact : UnitFact → Option Attributes → Option Attributes
with_fact fact none = none
with_fact fact (some a) = some (record a { unit_facts = a.unit_facts ++ (fact ∷ []) })

-- What the documentation of networkx says of these operations.
pub record IsMultiDiGraph {G : Type 0} (nx : MultiDiGraph G) : Type 0 where
  pub nodes-empty : nx.nodes nx.empty ≡ []
  pub edges-empty : nx.edges nx.empty ≡ []
  pub nodes-add_node :
      (i : Text) (a : Attributes) (g : G) (j : Text)
      → contains (nx.nodes (nx.add_node i a g)) j ≡ (text_eq i j || contains (nx.nodes g) j)
  pub attributes-add_node :
      (i : Text) (a : Attributes) (g : G) (j : Text)
      → nx.attributes (nx.add_node i a g) j ≡ (if text_eq i j then some a else nx.attributes g j)
  pub edges-add_node :
      (i : Text) (a : Attributes) (g : G) → nx.edges (nx.add_node i a g) ≡ nx.edges g
  pub nodes-append_fact :
      (i : Text) (fact : UnitFact) (g : G) → nx.nodes (nx.append_fact i fact g) ≡ nx.nodes g
  pub attributes-append_fact :
      (i : Text) (fact : UnitFact) (g : G) (j : Text)
      → nx.attributes (nx.append_fact i fact g) j
        ≡ (if text_eq i j then with_fact fact (nx.attributes g j) else nx.attributes g j)
  pub edges-append_fact :
      (i : Text) (fact : UnitFact) (g : G) → nx.edges (nx.append_fact i fact g) ≡ nx.edges g
  pub nodes-add_edge :
      (e : Edge) (g : G) (j : Text)
      → contains (nx.nodes (nx.add_edge e g)) j
        ≡ (text_eq e.source j || text_eq e.target j || contains (nx.nodes g) j)
  pub attributes-add_edge :
      (e : Edge) (g : G) (j : Text) → nx.attributes (nx.add_edge e g) j ≡ nx.attributes g j
  pub has-add_edge :
      (e : Edge) (g : G) (d : Edge)
      → has (nx.edges (nx.add_edge e g)) d ≡ (same_edge e d || has (nx.edges g) d)
  pub nodes-remove_edge :
      (e : Edge) (g : G) (j : Text)
      → contains (nx.nodes (nx.remove_edge e g)) j ≡ contains (nx.nodes g) j
  pub attributes-remove_edge :
      (e : Edge) (g : G) (j : Text) → nx.attributes (nx.remove_edge e g) j ≡ nx.attributes g j
  pub has-remove_edge :
      (e : Edge) (g : G) (d : Edge)
      → has (nx.edges (nx.remove_edge e g)) d ≡ (not (same_edge e d) && has (nx.edges g) d)
  pub out_edges_lem :
      (g : G) (i : Text) (e : Edge)
      → has (nx.out_edges g i) e ≡ (text_eq e.source i && has (nx.edges g) e)
  pub in_edges_lem :
      (g : G) (i : Text) (e : Edge)
      → has (nx.in_edges g i) e ≡ (text_eq e.target i && has (nx.edges g) e)
  pub ends-nodes :
      (g : G) (e : Edge)
      → has (nx.edges g) e ≡ true
      → (contains (nx.nodes g) e.source ≡ true) × (contains (nx.nodes g) e.target ≡ true)
