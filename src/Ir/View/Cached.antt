-- ===== src/Ir/View/Cached.antt =====
-- What `get_unit` answers when it is asked again.
use audit_zoo_bug_byters.Base.{
  ◌≡◌, refl, Bool, Bool-cases, inl, inr, true, false, Option, none, some, List, [], ◌∷◌, Text,
  text_eq, contains,
}
use audit_zoo_bug_byters.Base.Strings.Laws.{text_eq_refl}
use audit_zoo_bug_byters.Ir.Model.{CodeUnit, is_synthetic_id}
use audit_zoo_bug_byters.Ir.Graph.{MultiDiGraph, IsMultiDiGraph}
use audit_zoo_bug_byters.Ir.Backend.{
  Backend, Result, ok, raised, ir_value_error, Action, pure, reads, continue, ◌>>◌,
}
use audit_zoo_bug_byters.Ir.View.{
  units_at, View, World, in_graph, index_ids, unit_at, add_unit, index_touch, ask,
}
use audit_zoo_bug_byters.Ir.View.Index.{contains-set_add}
use audit_zoo_bug_byters.Ir.View.Units.{
  update, mark_unit, keep_found, load_unit, get_unit, load_kind, get_all_units_by_kind, touch_kind,
  mark_unit_kind, add_units,
}
use audit_zoo_bug_byters.Ir.View.Invariant.{Returns}
use audit_zoo_bug_byters.Ir.View.Invariant.Checks.{FindsById, IsNamed}

-- What a call answered is what the call `m` answers from there, and `m` changes nothing.
abbrev pub Repeats : {W A : Type 0} → Action W A → Result A × W → Type 0
Repeats m (ok a, w) = m w ≡ (ok a, w)
Repeats m (raised e, w) = Unit

index_touch-index_touch :
    (kind : Text) (index : List (Text × List Text))
    → index_touch kind (index_touch kind index) ≡ index_touch kind index
unfolding index_touch
index_touch-index_touch kind [] = rw (text_eq_refl kind) refl
index_touch-index_touch kind ((k, ids) ∷ index) = elim (Bool-cases (text_eq k kind)) [
  | inl same ↦ rw (same, same) refl
  | inr apart ↦ rw (apart, apart, index_touch-index_touch kind index) refl
]

module _ {G S : Type 0} (nx : MultiDiGraph G) (laws : IsMultiDiGraph nx) (backend : Backend S) where
  get_unit-node :
      (i : Text) (b : Bool) (u : CodeUnit) (w : World G S)
      → in_graph nx w.0.graph i ≡ true
      → unit_at nx w.0.graph i ≡ ok u
      → get_unit nx backend i b w ≡ (ok (some u), w)
  unfolding get_unit
  get_unit-node i b u w h e = rw (h, e) refl

  get_unit-asked :
      (i : Text) (b : Bool) (w : World G S)
      → in_graph nx w.0.graph i ≡ false
      → is_synthetic_id i ≡ false
      → contains w.0.loaded_units i ≡ true
      → get_unit nx backend i b w ≡ (ok none, w)
  unfolding get_unit load_unit
  get_unit-asked i true w h s l = rw (h, s, l) refl
  get_unit-asked i false w h s l = rw (h, s) refl

  get_unit-here :
      (i : Text) (w : World G S)
      → in_graph nx w.0.graph i ≡ true
      → get_unit nx backend i true w
        ≡ continue (λ unit. pure (some unit)) (unit_at nx w.0.graph i, w)
  unfolding get_unit
  get_unit-here i w h = rw h refl

  get_unit-synthetic :
      (i : Text) (w : World G S)
      → in_graph nx w.0.graph i ≡ false
      → is_synthetic_id i ≡ true
      → get_unit nx backend i true w ≡ (raised ir_value_error, w)
  unfolding get_unit
  get_unit-synthetic i w h s = rw (h, s) refl

  get_unit-new :
      (i : Text) (w : World G S)
      → in_graph nx w.0.graph i ≡ false
      → is_synthetic_id i ≡ false
      → contains w.0.loaded_units i ≡ false
      → get_unit nx backend i true w
        ≡ continue
            (λ found. update (mark_unit i) >> keep_found nx backend found)
            (ask (backend.get_code_unit i) w)
  unfolding get_unit load_unit
  get_unit-new i w h s l = rw (h, s, l) refl

  read_node :
      (i : Text) (b : Bool) (w : World G S) (r : Result CodeUnit)
      → in_graph nx w.0.graph i ≡ true
      → unit_at nx w.0.graph i ≡ r
      → Repeats (get_unit nx backend i b) (continue (λ unit. pure (some unit)) (r, w))
  read_node i b w (ok u) h e = get_unit-node i b u w h e
  read_node i b w (raised x) h e = tt

  after_asking :
      (i : Text) (b : Bool) (v : View G)
      → in_graph nx v.graph i ≡ false
      → is_synthetic_id i ≡ false
      → (r : Result (Option CodeUnit) × S) → IsNamed i r.0
      → Repeats (get_unit nx backend i b) (
          continue
            (λ found. update (mark_unit i) >> keep_found nx backend found)
            (let (f, s) = r in (f, (v, s))))
  unfolding keep_found add_unit unit_at
  after_asking i b v h k (ok none, s) n =
      get_unit-asked i b (mark_unit i v, s) h k (rw (contains-set_add, text_eq_refl i) refl)
  after_asking i b v h k (ok (some u), s) n =
      get_unit-node i b u (add_unit nx u (mark_unit i v), s)
        (rw (laws.nodes-add_node, n, text_eq_refl i) refl)
        (rw (unit_at, laws.attributes-add_node, n, text_eq_refl i) refl)
  after_asking i b v h k (raised x, s) n = tt

  -- Once `get_unit`, told to ask the back end, has answered, it answers the same again, with or without the back end, which is not asked, and the view stays as it is.
  pub get_unit-Repeats :
      FindsById backend
      → (i : Text) (b : Bool) (w : World G S)
      → Repeats (get_unit nx backend i b) (get_unit nx backend i true w)
  get_unit-Repeats honest i b w = elim (Bool-cases (in_graph nx w.0.graph i)) [
    | inl here ↦ rw (get_unit-here i w here) (read_node i b w (unit_at nx w.0.graph i) here refl)
    | inr missing ↦ elim (Bool-cases (is_synthetic_id i)) [
      | inl s ↦ rw (get_unit-synthetic i w missing s) tt
      | inr s ↦ elim (Bool-cases (contains w.0.loaded_units i)) [
        | inl asked ↦
            rw (get_unit-asked i true w missing s asked) (get_unit-asked i b w missing s asked)
        | inr new ↦
            rw (get_unit-new i w missing s new)
              (after_asking i b w.0 missing s (backend.get_code_unit i w.1) (honest i w.1))
      ]
    ]
  ]

  list_after :
      (kind : Text) (w : World G S)
      → get_all_units_by_kind nx backend kind true w
        ≡ continue
            (λ _.
              update (touch_kind kind)
              >> reads (λ u. units_at nx u.0.graph (index_ids u.0.type_index kind)))
            (load_kind nx backend kind true w)
  unfolding get_all_units_by_kind
  list_after kind w = refl

  -- The list of a kind that has been loaded, from a view that has an entry for it.
  units_listed :
      (kind : Text) (b : Bool) (w : World G S) (r : Result (List CodeUnit))
      → contains w.0.loaded_unit_kinds kind ≡ true
      → index_touch kind w.0.type_index ≡ w.0.type_index
      → units_at nx w.0.graph (index_ids w.0.type_index kind) ≡ r
      → Repeats (get_all_units_by_kind nx backend kind b) (r, w)
  unfolding get_all_units_by_kind load_kind
  units_listed kind true w (ok us) l t e = rw (l, t, e) refl
  units_listed kind false w (ok us) l t e = rw (t, e) refl
  units_listed kind b w (raised x) l t e = tt

  kind_added :
      (kind : Text) (v : View G) (r : Result (List CodeUnit) × S)
      → Returns
          (λ (_ : Unit {0}) u. contains u.loaded_unit_kinds kind ≡ true)
          (continue
            (λ units. update (add_units nx backend units) >> update (mark_unit_kind kind))
            (let (f, s) = r in (f, (v, s))))
  kind_added kind v (ok us, s) = rw (contains-set_add, text_eq_refl kind) refl
  kind_added kind v (raised x, s) = tt

  load_kind-loaded :
      (kind : Text) (w : World G S)
      → Returns
          (λ (_ : Unit {0}) v. contains v.loaded_unit_kinds kind ≡ true)
          (load_kind nx backend kind true w)
  unfolding load_kind
  load_kind-loaded kind w = elim (Bool-cases (contains w.0.loaded_unit_kinds kind)) [
    | inl old ↦ rw old old
    | inr new ↦ rw new (kind_added kind w.0 (backend.get_code_units kind w.1))
  ]

  list_loaded :
      (kind : Text) (b : Bool) (r : Result (Unit {0}) × World G S)
      → Returns (λ (_ : Unit {0}) v. contains v.loaded_unit_kinds kind ≡ true) r
      → Repeats (get_all_units_by_kind nx backend kind b) (
          continue
            (λ _.
              update (touch_kind kind)
              >> reads (λ w. units_at nx w.0.graph (index_ids w.0.type_index kind)))
            r)
  list_loaded kind b (ok _, w) h =
      units_listed kind b (touch_kind kind w.0, w.1)
        (units_at nx w.0.graph (index_ids (index_touch kind w.0.type_index) kind)) h
        (index_touch-index_touch kind w.0.type_index) refl
  list_loaded kind b (raised x, w) h = tt

  -- Once `get_all_units_by_kind`, told to ask the back end, has answered, it answers the same again, with or without the back end, which is not asked, and the view stays as it is.
  pub get_all_units_by_kind-Repeats :
      (kind : Text) (b : Bool) (w : World G S)
      → Repeats
          (get_all_units_by_kind nx backend kind b)
          (get_all_units_by_kind nx backend kind true w)
  get_all_units_by_kind-Repeats kind b w =
      rw (list_after kind w)
        (list_loaded kind b (load_kind nx backend kind true w) (load_kind-loaded kind w))
