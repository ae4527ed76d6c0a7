-- ===== src/Ir/View/Reads.antt =====
-- What the reads of a well-formed view return.
use audit_zoo_bug_byters.Base.{◌≡◌, refl, true, List, [], ◌∷◌, Text, contains, arith, All, map}
use audit_zoo_bug_byters.Base.Strings.Laws.{text_eq_refl}
use audit_zoo_bug_byters.Ir.Model.{CodeUnit}
use audit_zoo_bug_byters.Ir.Graph.{MultiDiGraph, IsMultiDiGraph, Edge, has}
use audit_zoo_bug_byters.Ir.Graph.Edges.{same_edge_refl}
use audit_zoo_bug_byters.Ir.Backend.{Backend, ok}
use audit_zoo_bug_byters.Ir.View.{units_at, View, in_graph, unit_at}
use audit_zoo_bug_byters.Ir.View.Units.{get_all_units}
use audit_zoo_bug_byters.Ir.View.Relations.{RelationRow, row_of, rows_of, get_all_relations}
use audit_zoo_bug_byters.Ir.View.Invariant.{IsView}

-- `i in ids` of each member.
pub nodes_in :
    (ids all : List Text)
    → ((i : Text) → contains ids i ≡ true → contains all i ≡ true)
    → All (λ i. contains all i ≡ true) ids
unfolding contains
nodes_in [] all h = tt
nodes_in (i ∷ ids) all h =
    (h i (ground (arith, text_eq_refl i)), nodes_in ids all (λ j p. h j (ground arith)))

-- An edge of each member.
pub members_edges :
    (es all : List Edge)
    → ((e : Edge) → has es e ≡ true → has all e ≡ true)
    → All (λ e. has all e ≡ true) es
unfolding has
members_edges [] all h = tt
members_edges (e ∷ es) all h =
    (h e (rw (same_edge_refl e) refl), members_edges es all (λ d p. h d (rw p (ground arith))))

-- The edge that a row tells of.
abbrev pub edge_of : RelationRow → Edge
edge_of row = record { source = row.source_unit.id; target = row.target_unit.id; key = row.key }

abbrev pub twice : List Edge → List Edge
twice [] = []
twice (e ∷ es) = e ∷ e ∷ twice es

module _ {G S : Type 0} (nx : MultiDiGraph G) (laws : IsMultiDiGraph nx) (backend : Backend S)
    (v : View G) (valid : IsView nx v) where
  -- A node's unit is there, under its identifier.
  pub unit_at-node :
      (i : Text)
      → in_graph nx v.graph i ≡ true
      → (u : CodeUnit) × (unit_at nx v.graph i ≡ ok u) × (u.id ≡ i)
  unfolding unit_at
  unit_at-node i h =
      let a = valid.attributed i h in (a.attributes.unit, rw (unit_at, a.found) refl, a.named)

  pub units_at-nodes :
      (ids : List Text)
      → All (λ i. in_graph nx v.graph i ≡ true) ids
      → (us : List CodeUnit) × (units_at nx v.graph ids ≡ ok us) × (map (λ u. u.id) us ≡ ids)
  unfolding units_at
  units_at-nodes [] h = ([], refl, refl)
  units_at-nodes (i ∷ ids) h =
      let (u, e, n) = unit_at-node i h.0 in
      let (us, es, ns) = units_at-nodes ids h.1 in (u ∷ us, rw (e, es) refl, rw (n, ns) refl)

  -- No `KeyError`: a well-formed view has the unit of every node.
  pub get_all_units-total :
      (us : List CodeUnit) × (get_all_units nx backend v ≡ ok us)
      × (map (λ u. u.id) us ≡ nx.nodes v.graph)
  unfolding get_all_units
  get_all_units-total =
      units_at-nodes (nx.nodes v.graph) (nodes_in (nx.nodes v.graph) (nx.nodes v.graph) (λ i h. h))

  row_of-edge :
      (e : Edge)
      → has (nx.edges v.graph) e ≡ true
      → (row : RelationRow) × (row_of nx backend v.graph e ≡ ok row)
        × (row.source_unit.id ≡ e.source)
        × (row.target_unit.id ≡ e.target)
        × (row.key ≡ e.key)
  unfolding row_of
  row_of-edge e h =
      let (p, q) = laws.ends-nodes v.graph e h in
      let (a, ea, na) = unit_at-node e.source p in
      let (b, eb, nb) = unit_at-node e.target q in
      (record { source_unit = a; target_unit = b; key = e.key }, rw (ea, eb) refl, na, nb, refl)

  rows_of-edges :
      (es : List Edge)
      → All (λ e. has (nx.edges v.graph) e ≡ true) es
      → (rows : List RelationRow) × (rows_of nx backend v.graph es ≡ ok rows)
        × (map edge_of rows ≡ twice es)
  unfolding rows_of
  rows_of-edges [] h = ([], refl, refl)
  rows_of-edges (e ∷ es) h =
      let (row, p, a, b, c) = row_of-edge e h.0 in
      let (rows, q, n) = rows_of-edges es h.1 in
      (row ∷ row ∷ rows, rw (p, q) refl, rw (a, b, c, n) refl)

  -- `get_all_relations` of a well-formed view returns, and its rows are the edges of the graph in their order, each of them twice.
  pub get_all_relations-doubled :
      (rows : List RelationRow) × (get_all_relations nx backend v ≡ ok rows)
      × (map edge_of rows ≡ twice (nx.edges v.graph))
  unfolding get_all_relations
  get_all_relations-doubled =
      rows_of-edges (nx.edges v.graph)
        (members_edges (nx.edges v.graph) (nx.edges v.graph) (λ e h. h))
