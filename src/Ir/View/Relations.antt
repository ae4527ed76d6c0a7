-- ===== src/Ir/View/Relations.antt =====
-- auditzoo/core/ir/view.py: the methods of `IRView` on relations.
use audit_zoo_bug_byters.Base.{
  ℕ, ◌==◌, Bool, true, not, ◌&&◌, Option, none, some, List, [], ◌∷◌, ◌++◌, Text, codes, text_eq,
  contains, length, if◌then◌else◌,
}
use audit_zoo_bug_byters.Ir.Model.{CodeUnit, CodeUnitRelation}
use audit_zoo_bug_byters.Ir.Graph.{MultiDiGraph, Edge}
use audit_zoo_bug_byters.Ir.Backend.{
  Backend, Result, ok, ir_value_error, runtime_error, Direction, incoming, outgoing, Action, pure,
  raise, gets, reads, raise_if, ◌>>=◌, ◌>>◌, result_bind,
}
use audit_zoo_bug_byters.Ir.View.{View, World, ask, unit_at, set_add, RelationQuery, queried}
use audit_zoo_bug_byters.Ir.View.Units.{update, has_unit}

-- A row of `get_related_units`.
pub record RelatedUnit : Type 0 where
  pub unit : CodeUnit
  pub direction : Direction
  pub key : CodeUnitRelation

-- A row of `get_all_relations`.
pub record RelationRow : Type 0 where
  pub source_unit : CodeUnit
  pub target_unit : CodeUnit
  pub key : CodeUnitRelation

pub data DirectionChoice : Type 0 where
  both : DirectionChoice
  one : Direction → DirectionChoice

-- The texts that `direction` may be.
unfoldable pub direction_of : Text → Option DirectionChoice
direction_of t =
    if text_eq t (codes "both")
    then some both
    else if text_eq t (codes "in")
    then some (one incoming)
    else if text_eq t (codes "out")
    then some (one outgoing)
    else none

-- The relation of a unit to one that the back end gave, as an edge.
unfoldable pub edge_towards : Text → Direction → Text → CodeUnitRelation → Edge
edge_towards unit_id outgoing other relation = record {
  source = unit_id;
  target = other;
  key = relation;
}
edge_towards unit_id incoming other relation = record {
  source = other;
  target = unit_id;
  key = relation;
}

-- `self._loaded_relations.add(query)`
abbrev pub mark_query : {G : Type 0} → RelationQuery → View G → View G
mark_query q v = record v { loaded_relations = q ∷ v.loaded_relations }

-- `self._loaded_relation_kinds.add(kind)`
abbrev pub mark_relation_kind : {G : Type 0} → Text → View G → View G
mark_relation_kind kind v = record v {
  loaded_relation_kinds = set_add kind v.loaded_relation_kinds;
}

module _ {G S : Type 0} (nx : MultiDiGraph G) (backend : Backend S) where
  -- `if not await self.has_unit(...): raise IRValueError`
  unfoldable pub need_unit : Text → Bool → Action (World G S) (Unit {0})
  unfolding has_unit
  need_unit unit_id fetch_backend = do
    raise_if (not (← has_unit nx backend unit_id fetch_backend)) ir_value_error

  -- `self._graph.add_edge`
  unfoldable pub put_edge : Edge → View G → View G
  put_edge e v = record v { graph = nx.add_edge e v.graph }

  -- `_add_relation`
  unfoldable pub add_relation : Edge → Action (World G S) (Unit {0})
  unfolding need_unit put_edge
  add_relation e = do need_unit e.source true; need_unit e.target true; update (put_edge e)

  -- `for target_unit, relation in relations: ...`
  unfoldable pub add_related :
      Text → Direction → List (CodeUnit × CodeUnitRelation) → Action (World G S) (Unit {0})
  unfolding need_unit add_relation edge_towards
  add_related unit_id direction [] = pure tt
  add_related unit_id direction ((target_unit, relation) ∷ relations) = do
    need_unit target_unit.id true
    add_relation (edge_towards unit_id direction target_unit.id relation)
    add_related unit_id direction relations

  -- The iteration over the nodes raises as soon as their number is another.
  unfoldable pub check_size : ℕ → Action (World G S) (Unit {0})
  check_size n = do
    v ← gets (λ w. w.0)
    raise_if (not (length (nx.nodes v.graph) == n)) runtime_error

  -- `for source_id in self._graph.nodes: ...`, with `n` nodes at the start.
  unfoldable pub load_from : ℕ → Text → List Text → Action (World G S) (Unit {0})
  unfolding check_size unit_at add_related
  load_from n kind [] = check_size n
  load_from n kind (source_id ∷ ids) = do
    check_size n
    source_unit ← reads (λ w. unit_at nx w.0.graph source_id)
    relations ← ask (backend.get_relations source_unit kind outgoing)
    add_related source_id outgoing relations
    load_from n kind ids

  unfoldable pub load_relation_kind : Text → Bool → Action (World G S) (Unit {0})
  unfolding load_from contains set_add
  load_relation_kind kind fetch_backend (v, s) =
      if fetch_backend && not (contains v.loaded_relation_kinds kind)
      then (do
        load_from (length (nx.nodes v.graph)) kind (nx.nodes v.graph)
        update (mark_relation_kind kind))
          (v, s)
      else pure tt (v, s)

  unfoldable pub row_of : G → Edge → Result RelationRow
  unfolding unit_at
  row_of g e = result_bind (unit_at nx g e.source) (λ source_unit.
      result_bind (unit_at nx g e.target) (λ target_unit.
        ok (record { source_unit = source_unit; target_unit = target_unit; key = e.key })))

  -- The rows of the edges of a kind.
  unfoldable pub rows_of_kind : G → Text → List Edge → Result (List RelationRow)
  unfolding row_of
  rows_of_kind g kind [] = ok []
  rows_of_kind g kind (e ∷ es) =
      let rest = rows_of_kind g kind es in
      if text_eq e.key.kind kind
      then result_bind (row_of g e) (λ row. result_bind rest (λ rows. ok (row ∷ rows)))
      else rest

  unfoldable pub get_all_relations_by_kind : Text → Bool → Action (World G S) (List RelationRow)
  unfolding load_relation_kind rows_of_kind
  get_all_relations_by_kind kind fetch_backend = do
    load_relation_kind kind fetch_backend
    reads (λ w. rows_of_kind w.0.graph kind (nx.edges w.0.graph))

  -- Loads the relations of a unit, unless they, or all of their kind, have been loaded.
  unfoldable pub load_related : CodeUnit → Text → Direction → Bool → Action (World G S) (Unit {0})
  unfolding add_related contains queried
  load_related unit kind direction fetch_backend (v, s) =
      let q : RelationQuery = record { unit_id = unit.id; direction = direction; kind = kind } in
      if fetch_backend
        && not (contains v.loaded_relation_kinds kind)
        && not (queried v.loaded_relations q)
      then (do
        relations ← ask (backend.get_relations unit kind direction)
        add_related unit.id direction relations
        update (mark_query q))
          (v, s)
      else pure tt (v, s)

  abbrev pub other_end : Direction → Edge → Text
  other_end outgoing e = e.target
  other_end incoming e = e.source

  abbrev pub edges_of : G → Direction → Text → List Edge
  edges_of g outgoing unit_id = nx.out_edges g unit_id
  edges_of g incoming unit_id = nx.in_edges g unit_id

  -- The rows of the edges of a kind at a unit.
  unfoldable pub related_of : G → Direction → Text → List Edge → Result (List RelatedUnit)
  unfolding unit_at
  related_of g direction kind [] = ok []
  related_of g direction kind (e ∷ es) =
      let rest = related_of g direction kind es in
      if text_eq e.key.kind kind
      then result_bind (unit_at nx g (other_end direction e)) (λ unit.
        result_bind rest
          (λ rows. ok (record { unit = unit; direction = direction; key = e.key } ∷ rows)))
      else rest

  -- `get_related_units` behind its checks, in one direction
  unfoldable pub get_directed :
      CodeUnit → Text → Bool → Direction → Action (World G S) (List RelatedUnit)
  unfolding load_related related_of
  get_directed unit kind fetch_backend direction = do
    load_related unit kind direction fetch_backend
    reads (λ w. related_of w.0.graph direction kind (edges_of w.0.graph direction unit.id))

  -- The cases of the direction. For both, the method calls itself, with its check of the unit.
  unfoldable pub get_chosen :
      CodeUnit → Text → Bool → Option DirectionChoice → Action (World G S) (List RelatedUnit)
  unfolding get_directed need_unit
  get_chosen unit kind fetch_backend none = raise ir_value_error
  get_chosen unit kind fetch_backend (some (one direction)) =
      get_directed unit kind fetch_backend direction
  get_chosen unit kind fetch_backend (some both) = do
    need_unit unit.id fetch_backend
    out_related ← get_directed unit kind fetch_backend outgoing
    need_unit unit.id fetch_backend
    in_related ← get_directed unit kind fetch_backend incoming
    pure (out_related ++ in_related)

  unfoldable pub get_related_units :
      CodeUnit → Text → Text → Bool → Action (World G S) (List RelatedUnit)
  unfolding need_unit get_chosen direction_of
  get_related_units unit kind direction fetch_backend = do
    need_unit unit.id fetch_backend
    get_chosen unit kind fetch_backend (direction_of direction)

  -- Every edge twice, as the loop appends it.
  unfoldable pub rows_of : G → List Edge → Result (List RelationRow)
  unfolding row_of
  rows_of g [] = ok []
  rows_of g (e ∷ es) =
      let rest = rows_of g es in
      result_bind (row_of g e) (λ row. result_bind rest (λ rows. ok (row ∷ row ∷ rows)))

  unfoldable pub get_all_relations : View G → Result (List RelationRow)
  unfolding rows_of
  get_all_relations v = rows_of v.graph (nx.edges v.graph)
