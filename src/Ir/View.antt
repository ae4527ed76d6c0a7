-- ===== src/Ir/View.antt =====
-- auditzoo/core/ir/view.py: the fields of `IRView`, and the steps on them that its methods share. A
-- dict is an association list and a set a list. The set of the relations loaded is a list of queries.
pub mod Index
pub mod Units
pub mod Relations
pub mod FactStore
pub mod Cache
pub mod Invariant
pub mod Reads
pub mod Cached
pub mod Queries
pub mod Stats
pub mod Sync
pub mod Limits
pub mod Present
pub mod Complete
pub mod Edges
pub mod Related
pub mod Recall
use audit_zoo_bug_byters.Base.{
  Bool, true, false, ◌||◌, ◌&&◌, Option, none, some, List, [], ◌∷◌, ◌++◌, Text, text_eq, contains,
  if◌then◌else◌,
}
use audit_zoo_bug_byters.Ir.Model.{CodeUnit, RelationFact}
use audit_zoo_bug_byters.Ir.Graph.{MultiDiGraph, Attributes}
use audit_zoo_bug_byters.Ir.Backend.{
  Result, ok, raised, key_error, Direction, incoming, outgoing, Action, result_bind,
}

-- A unit, a direction and a kind.
pub record RelationQuery : Type 0 where
  pub unit_id : Text
  pub direction : Direction
  pub kind : Text

unfoldable pub same_direction : Direction → Direction → Bool
same_direction incoming incoming = true
same_direction incoming outgoing = false
same_direction outgoing incoming = false
same_direction outgoing outgoing = true

unfoldable pub same_query : RelationQuery → RelationQuery → Bool
unfolding same_direction
same_query q other =
    text_eq q.unit_id other.unit_id
    && same_direction q.direction other.direction
    && text_eq q.kind other.kind

-- `q in self._loaded_relations`
unfoldable pub queried : List RelationQuery → RelationQuery → Bool
queried [] q = false
queried (r ∷ rs) q = same_query r q || queried rs q

-- The fields of `IRView`, without the back end.
pub record View (G : Type 0) : Type 0 where
  pub graph : G
  pub type_index : List (Text × List Text)
  pub relation_facts : List RelationFact
  pub loaded_units : List Text
  pub loaded_relations : List RelationQuery
  pub loaded_unit_kinds : List Text
  pub loaded_relation_kinds : List Text

-- A view with the state of its back end.
abbrev pub World : Type 0 → Type 0 → Type 0
World G S = View G × S

-- `s.add(x)`
unfoldable pub set_add : Text → List Text → List Text
set_add x s = if contains s x then s else s ++ (x ∷ [])

-- `self._type_index[kind].add(unit_id)`
unfoldable pub index_add : Text → Text → List (Text × List Text) → List (Text × List Text)
unfolding set_add
index_add kind unit_id [] = (kind, unit_id ∷ []) ∷ []
index_add kind unit_id ((k, ids) ∷ index) =
    let rest = index_add kind unit_id index in
    if text_eq k kind then (k, set_add unit_id ids) ∷ index else (k, ids) ∷ rest

-- `self._type_index[kind]`, which puts an empty set at a key that is missing
unfoldable pub index_touch : Text → List (Text × List Text) → List (Text × List Text)
index_touch kind [] = (kind, []) ∷ []
index_touch kind ((k, ids) ∷ index) =
    let rest = index_touch kind index in
    if text_eq k kind then (k, ids) ∷ index else (k, ids) ∷ rest

-- What `self._type_index[kind]` is.
unfoldable pub index_ids : List (Text × List Text) → Text → List Text
index_ids [] kind = []
index_ids ((k, ids) ∷ index) kind =
    let rest = index_ids index kind in if text_eq k kind then ids else rest

-- A call of the back end.
abbrev pub ask : {G S A : Type 0} → Action S A → Action (World G S) A
ask call (v, s) = let (r, s') = call s in (r, (v, s'))

-- `return found.value`, or the `KeyError`
unfoldable pub or_key_error : {A : Type 0} → Option A → Result A
or_key_error none = raised key_error
or_key_error (some a) = ok a

module _ {G : Type 0} (nx : MultiDiGraph G) where
  -- `self._graph.nodes[unit_id]["unit"]`
  unfoldable pub unit_at : G → Text → Result CodeUnit
  unit_at g unit_id = elim (nx.attributes g unit_id) [
    | none ↦ raised key_error
    | some a ↦ ok a.unit
  ]

  -- `[self._graph.nodes[node_id]["unit"] for node_id in ids]`
  unfoldable pub units_at : G → List Text → Result (List CodeUnit)
  unfolding unit_at
  units_at g [] = ok []
  units_at g (i ∷ ids) =
      let rest = units_at g ids in
      result_bind (unit_at g i) (λ unit. result_bind rest (λ units. ok (unit ∷ units)))

  -- `unit_id in self._graph`
  abbrev pub in_graph : G → Text → Bool
  in_graph g unit_id = contains (nx.nodes g) unit_id

  -- What `__init__` sets.
  abbrev pub new_view : View G
  new_view = record {
    graph = nx.empty;
    type_index = [];
    relation_facts = [];
    loaded_units = [];
    loaded_relations = [];
    loaded_unit_kinds = [];
    loaded_relation_kinds = [];
  }

  -- `_add_unit`. The facts of a unit that is in the graph are lost.
  unfoldable pub add_unit : CodeUnit → View G → View G
  unfolding index_add
  add_unit unit v = record v {
    graph = nx.add_node unit.id (record { unit = unit; unit_facts = [] }) v.graph;
    type_index = index_add unit.kind unit.id v.type_index;
  }
