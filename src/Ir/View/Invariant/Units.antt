-- ===== src/Ir/View/Invariant/Units.antt =====
-- The methods on units keep the invariant, and what a check of a unit answers is so.
use audit_zoo_bug_byters.Base.{
  ◌⊎◌, ◌≡◌, refl, sym, ◌∙◌, Bool, Bool-cases, inl, inr, true, false, not, ◌||◌, ◌&&◌, Option, none,
  some, List, [], ◌∷◌, Text, text_eq, contains, arith,
}
use audit_zoo_bug_byters.Base.Strings.Laws.{text_eq_sound, text_eq_refl}
use audit_zoo_bug_byters.Ir.Model.{CodeUnit, CodeLocation, is_synthetic_id}
use audit_zoo_bug_byters.Ir.Graph.{MultiDiGraph, IsMultiDiGraph, Attributes}
use audit_zoo_bug_byters.Ir.Backend.{Backend, Result, Action, pure, reads, ◌>>=◌, ◌>>◌}
use audit_zoo_bug_byters.Ir.View.{
  units_at, View, World, in_graph, index_ids, add_unit, ask, unit_at,
}
use audit_zoo_bug_byters.Ir.View.Index.{index_ids-index_add, index_ids-index_touch}
use audit_zoo_bug_byters.Ir.View.Units.{
  update, mark_unit, touch_kind, mark_unit_kind, keep_found, load_unit, get_unit, has_unit, is_some,
  add_missing, keep_located, fetch_unit, add_units, load_kind, get_all_units_by_kind,
}
use audit_zoo_bug_byters.Ir.View.Invariant.{
  IsAttributed, IsView, Extends, Extends-refl, Extends-trans, Extends-same_graph, Keeps, >>=-Keeps,
}

or-cases : (a b : Bool) → (a || b) ≡ true → (a ≡ true) ⊎ ((a ≡ false) × (b ≡ true))
or-cases a b h = ground arith

module _ {G S : Type 0} (nx : MultiDiGraph G) (laws : IsMultiDiGraph nx) (backend : Backend S) where
  IsAttributed-add_unit :
      (unit : CodeUnit) (v : View G)
      → IsView nx v
      → (i : Text) → in_graph nx (add_unit nx unit v).graph i ≡ true
      → IsAttributed nx (add_unit nx unit v) i
  unfolding add_unit
  IsAttributed-add_unit unit v valid i h =
      let attrs : Attributes = record { unit = unit; unit_facts = [] } in
      elim (or-cases (text_eq unit.id i) (contains (nx.nodes v.graph) i)
        (sym (laws.nodes-add_node unit.id attrs v.graph i) ∙ h)) [
          | inl same ↦ record {
            attributes = attrs;
            found = rw (laws.attributes-add_node, same) refl;
            named = text_eq_sound unit.id i same;
            listed = rw (index_ids-index_add, same, text_eq_refl unit.kind) refl;
          }
          | inr (apart, old) ↦
              let a = valid.attributed i old in
              record {
                attributes = a.attributes;
                found = rw (laws.attributes-add_node, apart) a.found;
                named = a.named;
                listed = rw (index_ids-index_add, a.listed) (ground arith);
              }
        ]

  pub add_unit-Extends : (unit : CodeUnit) (v : View G) → Extends nx v (add_unit nx unit v)
  unfolding add_unit
  add_unit-Extends unit v = record {
    kept = λ valid. record {
      attributed = IsAttributed-add_unit unit v valid;
      indexed = λ k i h.
          rw laws.nodes-add_node
            (elim (or-cases (text_eq unit.kind k && text_eq unit.id i)
              (contains (index_ids v.type_index k) i)
              (sym (index_ids-index_add unit.kind unit.id v.type_index k i) ∙ h)) [
                | inl new ↦ ground arith
                | inr (_, old) ↦ rw (valid.indexed k i old) (ground arith)
              ]);
    };
    grown = λ i h. rw (laws.nodes-add_node, h) (ground arith);
  }

  pub update-Keeps :
      (f : View G → View G) → ((v : View G) → Extends nx v (f v)) → Keeps nx {S = S} (update f)
  update-Keeps f h = record { at = λ w. h w.0 }

  pub ask-Keeps : {A : Type 0} (call : Action S A) → Keeps nx (ask call)
  ask-Keeps call = record { at = λ w. Extends-refl nx w.0 }

  pub pure-Keeps : {A : Type 0} (a : A) → Keeps nx {S = S} (pure a)
  pure-Keeps a = record { at = λ w. Extends-refl nx w.0 }

  pub reads-Keeps : {A : Type 0} (f : World G S → Result A) → Keeps nx (reads f)
  reads-Keeps f = record { at = λ w. Extends-refl nx w.0 }

  -- A change of the sets of what has been loaded.
  pub mark-Keeps :
      (f : View G → View G)
      → ((v : View G) → (f v).graph ≡ v.graph)
      → ((v : View G) (k : Text) → index_ids (f v).type_index k ≡ index_ids v.type_index k)
      → Keeps nx {S = S} (update f)
  mark-Keeps f g ids = update-Keeps f (λ v. Extends-same_graph nx v (f v) (g v) (ids v))

  keep_found-Keeps : (found : Option CodeUnit) → Keeps nx {S = S} (keep_found nx backend found)
  unfolding keep_found
  keep_found-Keeps none = pure-Keeps none
  keep_found-Keeps (some unit) =
      >>=-Keeps nx (update-Keeps (add_unit nx unit) (add_unit-Extends unit))
        (λ _. pure-Keeps (some unit))

  ask_unit-Keeps :
      (i : Text)
      → Keeps nx (
          ask (backend.get_code_unit i) >>= λ found.
          update (mark_unit i) >> keep_found nx backend found)
  ask_unit-Keeps i = >>=-Keeps nx (ask-Keeps (backend.get_code_unit i)) λ found.
      >>=-Keeps nx (mark-Keeps (mark_unit i) (λ _. refl) (λ _ _. refl)) λ _. keep_found-Keeps found

  load_unit-Keeps : (i : Text) (b : Bool) → Keeps nx (load_unit nx backend i b)
  unfolding load_unit
  load_unit-Keeps i b = record {
    at = λ w. elim (Bool-cases (b && not (contains w.0.loaded_units i))) [
      | inl new ↦ rw new ((ask_unit-Keeps i).at w)
      | inr old ↦ rw old (Extends-refl nx w.0)
    ];
  }

  read_unit-Keeps :
      (r : Result CodeUnit) → Keeps nx {S = S} (reads (λ _. r) >>= λ unit. pure (some unit))
  read_unit-Keeps r = >>=-Keeps nx (reads-Keeps (λ _. r)) λ unit. pure-Keeps (some unit)

  pub get_unit-Keeps : (i : Text) (b : Bool) → Keeps nx (get_unit nx backend i b)
  unfolding get_unit
  get_unit-Keeps i b = record {
    at = λ w. elim (Bool-cases (in_graph nx w.0.graph i)) [
      | inl here ↦ rw here ((read_unit-Keeps (unit_at nx w.0.graph i)).at w)
      | inr missing ↦ elim (Bool-cases (is_synthetic_id i)) [
        | inl s ↦ rw (missing, s) (Extends-refl nx w.0)
        | inr s ↦ rw (missing, s) ((load_unit-Keeps i b).at w)
      ]
    ];
  }

  pub has_unit-Keeps : (i : Text) (b : Bool) → Keeps nx (has_unit nx backend i b)
  unfolding has_unit
  has_unit-Keeps i b =
      >>=-Keeps nx (get_unit-Keeps i b) λ unit. pure-Keeps (is_some nx backend unit)

  add_missing-Extends :
      (unit : CodeUnit) (v : View G) → Extends nx v (add_missing nx backend unit v)
  unfolding add_missing
  add_missing-Extends unit v = elim (Bool-cases (in_graph nx v.graph unit.id)) [
    | inl here ↦ rw here (Extends-refl nx v)
    | inr missing ↦ rw missing (add_unit-Extends unit v)
  ]

  keep_located-Keeps : (found : Option CodeUnit) → Keeps nx {S = S} (keep_located nx backend found)
  unfolding keep_located
  keep_located-Keeps none = pure-Keeps none
  keep_located-Keeps (some unit) =
      >>=-Keeps nx (update-Keeps (add_missing nx backend unit) (add_missing-Extends unit))
        λ _. pure-Keeps (some unit)

  pub fetch_unit-Keeps : (l : CodeLocation) → Keeps nx (fetch_unit nx backend l)
  unfolding fetch_unit
  fetch_unit-Keeps l =
      >>=-Keeps nx (ask-Keeps (backend.get_code_unit_by_location l)) keep_located-Keeps

  add_units-Extends :
      (units : List CodeUnit) (v : View G) → Extends nx v (add_units nx backend units v)
  unfolding add_units
  add_units-Extends [] v = Extends-refl nx v
  add_units-Extends (unit ∷ units) v =
      Extends-trans nx v (add_unit nx unit v) (add_units nx backend units (add_unit nx unit v))
        (add_unit-Extends unit v) (add_units-Extends units (add_unit nx unit v))

  ask_kind-Keeps :
      (kind : Text)
      → Keeps nx (
          ask (backend.get_code_units kind) >>= λ units.
          update (add_units nx backend units) >> update (mark_unit_kind kind))
  ask_kind-Keeps kind = >>=-Keeps nx (ask-Keeps (backend.get_code_units kind)) λ units.
      >>=-Keeps nx (update-Keeps (add_units nx backend units) (add_units-Extends units))
        λ _. mark-Keeps (mark_unit_kind kind) (λ _. refl) (λ _ _. refl)

  pub load_kind-Keeps : (kind : Text) (b : Bool) → Keeps nx (load_kind nx backend kind b)
  unfolding load_kind
  load_kind-Keeps kind b = record {
    at = λ w. elim (Bool-cases (b && not (contains w.0.loaded_unit_kinds kind))) [
      | inl new ↦ rw new ((ask_kind-Keeps kind).at w)
      | inr old ↦ rw old (Extends-refl nx w.0)
    ];
  }

  pub get_all_units_by_kind-Keeps :
      (kind : Text) (b : Bool) → Keeps nx (get_all_units_by_kind nx backend kind b)
  unfolding get_all_units_by_kind
  get_all_units_by_kind-Keeps kind b = >>=-Keeps nx (load_kind-Keeps kind b) λ _.
      >>=-Keeps nx
        (mark-Keeps (touch_kind kind) (λ _. refl) (λ v. index_ids-index_touch kind v.type_index))
        λ _. reads-Keeps (λ w. units_at nx w.0.graph (index_ids w.0.type_index kind))
