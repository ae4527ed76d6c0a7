-- ===== src/Ir/View/Units.antt =====
-- auditzoo/core/ir/view.py: the methods of `IRView` on units.
use audit_zoo_bug_byters.Base.{
  Bool, true, false, not, ◌&&◌, Option, none, some, List, [], ◌∷◌, Text, contains, if◌then◌else◌,
}
use audit_zoo_bug_byters.Ir.Model.{CodeLocation, CodeUnit, is_synthetic_id}
use audit_zoo_bug_byters.Ir.Graph.{MultiDiGraph}
use audit_zoo_bug_byters.Ir.Backend.{
  Backend, Result, ir_value_error, Action, pure, raise, reads, modify, ◌>>=◌, ◌>>◌,
}
use audit_zoo_bug_byters.Ir.View.{
  View, World, ask, add_unit, unit_at, units_at, in_graph, set_add, index_touch, index_ids,
}

abbrev pub update : {G S : Type 0} → (View G → View G) → Action (World G S) (Unit {0})
update f = modify (λ w. (f w.0, w.1))

-- `self._loaded_units.add(unit_id)`
abbrev pub mark_unit : {G : Type 0} → Text → View G → View G
mark_unit unit_id v = record v { loaded_units = set_add unit_id v.loaded_units }

-- `self._loaded_unit_kinds.add(kind)`
abbrev pub mark_unit_kind : {G : Type 0} → Text → View G → View G
mark_unit_kind kind v = record v { loaded_unit_kinds = set_add kind v.loaded_unit_kinds }

abbrev pub touch_kind : {G : Type 0} → Text → View G → View G
touch_kind kind v = record v { type_index = index_touch kind v.type_index }

module _ {G S : Type 0} (nx : MultiDiGraph G) (backend : Backend S) where
  -- Adds what the back end found.
  unfoldable pub keep_found : Option CodeUnit → Action (World G S) (Option CodeUnit)
  unfolding add_unit
  keep_found none = pure none
  keep_found (some unit) = update (add_unit nx unit) >> pure (some unit)

  -- Asks the back end for a unit, once.
  unfoldable pub load_unit : Text → Bool → Action (World G S) (Option CodeUnit)
  unfolding keep_found set_add contains
  load_unit unit_id fetch_backend (v, s) =
      if fetch_backend && not (contains v.loaded_units unit_id)
      then (do
        found ← ask (backend.get_code_unit unit_id)
        update (mark_unit unit_id)
        keep_found found)
          (v, s)
      else pure none (v, s)

  unfoldable pub get_unit : Text → Bool → Action (World G S) (Option CodeUnit)
  unfolding load_unit unit_at is_synthetic_id contains
  get_unit unit_id fetch_backend (v, s) =
      if in_graph nx v.graph unit_id
      then (do unit ← reads (λ _. unit_at nx v.graph unit_id); pure (some unit)) (v, s)
      else if is_synthetic_id unit_id
      then raise ir_value_error (v, s)
      else load_unit unit_id fetch_backend (v, s)

  abbrev pub is_some : {A : Type 0} → Option A → Bool
  is_some none = false
  is_some (some a) = true

  unfoldable pub has_unit : Text → Bool → Action (World G S) Bool
  unfolding get_unit
  has_unit unit_id fetch_backend = do unit ← get_unit unit_id fetch_backend; pure (is_some unit)

  -- Adds a unit found at a location, unless it is there.
  unfoldable pub add_missing : CodeUnit → View G → View G
  unfolding add_unit contains
  add_missing unit v = if in_graph nx v.graph unit.id then v else add_unit nx unit v

  -- Adds a unit found at a location, unless it is there.
  unfoldable pub keep_located : Option CodeUnit → Action (World G S) (Option CodeUnit)
  unfolding add_missing
  keep_located none = pure none
  keep_located (some unit) = do update (add_missing unit); pure (some unit)

  unfoldable pub fetch_unit : CodeLocation → Action (World G S) (Option CodeUnit)
  unfolding keep_located
  fetch_unit location = ask (backend.get_code_unit_by_location location) >>= keep_located

  -- `for unit in units: self._add_unit(unit)`
  unfoldable pub add_units : List CodeUnit → View G → View G
  unfolding add_unit
  add_units [] v = v
  add_units (unit ∷ units) v = add_units units (add_unit nx unit v)

  -- Loads a kind, unless it has been loaded.
  unfoldable pub load_kind : Text → Bool → Action (World G S) (Unit {0})
  unfolding add_units contains set_add
  load_kind kind fetch_backend (v, s) =
      if fetch_backend && not (contains v.loaded_unit_kinds kind)
      then (do
        units ← ask (backend.get_code_units kind)
        update (add_units units)
        update (mark_unit_kind kind))
          (v, s)
      else pure tt (v, s)

  unfoldable pub get_all_units_by_kind : Text → Bool → Action (World G S) (List CodeUnit)
  unfolding load_kind units_at index_touch index_ids
  get_all_units_by_kind kind fetch_backend = do
    load_kind kind fetch_backend
    update (touch_kind kind)
    reads (λ w. units_at nx w.0.graph (index_ids w.0.type_index kind))

  unfoldable pub get_all_units : View G → Result (List CodeUnit)
  unfolding units_at
  get_all_units v = units_at nx v.graph (nx.nodes v.graph)
