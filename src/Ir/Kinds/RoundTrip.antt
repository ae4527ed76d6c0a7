-- ===== src/Ir/Kinds/RoundTrip.antt =====
-- auditzoo/core/ir: a graph updater that is stored as a dict and read again.
use mathlib.Core.Path.{subst}
use audit_zoo_bug_byters.Base.{◌≡◌, refl, Bool, true, false, some, [], ◌∷◌, ◌||◌, codes, text_eq}
use audit_zoo_bug_byters.Ir.Model.{GraphUpdateOp, add_edge, remove_edge}
use audit_zoo_bug_byters.Ir.Backend.{other, ok, raised}
use audit_zoo_bug_byters.Ir.Facts.Builtin.{Kwargs, dict_value, Details, has_key}
use audit_zoo_bug_byters.Ir.Facts.RoundTrip.{ok_guarded}
use audit_zoo_bug_byters.Ir.Kinds.{
  RelationKind, calls, annotated_by, contained_in, contains_unit, Relation, relation, Updater,
  kind_name, UpdaterDict, updater_to_dict, updater_from_dict, op_value, op_of, with_relation,
  relation_to_dict, kind_to_dict,
}

-- What a kind is that cannot be stored.
unfoldable pub is_annotated_by : RelationKind → Bool
is_annotated_by calls = false
is_annotated_by annotated_by = true
is_annotated_by (contained_in level) = false
is_annotated_by (contains_unit level) = false

abbrev Rebuilt : Relation → Type 0
Rebuilt r = relation r.kind r.metadata ≡ ok r

relation-Rebuilt :
    (kind : RelationKind) (d : Details) (r : Relation) → relation kind d ≡ ok r → Rebuilt r
unfolding relation
relation-Rebuilt kind d r h =
    let (clear, same) = ok_guarded (has_key (codes "self") d || has_key (codes "kind") d) _ _ r h in
    subst Rebuilt same (rw clear refl)

op_of-op_value : (o : GraphUpdateOp) → op_of (op_value o) ≡ ok o
unfolding op_of op_value text_eq
op_of-op_value add_edge = refl
op_of-op_value remove_edge = refl

-- What becomes of a graph updater, whose kind can be stored or not: without, its dict cannot be made,
-- and with, the dict is made, and read as the updater.
abbrev pub Stored : Bool → Updater → Type 0
Stored true u = updater_to_dict u ≡ raised (other (codes "IRUnimplementedError"))
Stored false u = (d : UpdaterDict) × (updater_to_dict u ≡ ok d) × (updater_from_dict d ≡ ok u)

abbrev dict_of : GraphUpdateOp → RelationKind → Kwargs → Details → UpdaterDict
dict_of o kind kwargs m = record {
  operation = some (op_value o);
  relation = some (record {
    kind = some (record { class_name = some (kind_name kind); kwargs = some kwargs });
    metadata = some (dict_value m);
  });
}

-- The way through the dict, by the kind of the relation.
through :
    (o : GraphUpdateOp) (kind : RelationKind) (m : Details)
    → let r : Relation = record { kind = kind; metadata = m } in
      Rebuilt r → Stored (is_annotated_by kind) (record { operation = o; relation = r })
unfolding updater_to_dict updater_from_dict is_annotated_by relation_to_dict kind_to_dict
    with_relation text_eq
through o annotated_by m h = refl
through o calls m h = (dict_of o calls [] m, refl, rw (op_of-op_value o, h) refl)
through o (contained_in level) m h = (
  dict_of o (contained_in level) ((codes "level", level) ∷ []) m,
  refl,
  rw (op_of-op_value o, h) refl,
)
through o (contains_unit level) m h = (
  dict_of o (contains_unit level) ((codes "level", level) ∷ []) m,
  refl,
  rw (op_of-op_value o, h) refl,
)

-- The dict of a graph updater whose relation the constructor has returned is made and read as the same updater, except for an AnnotatedBy relation, for which making the dict raises.
pub updater_from_dict-updater_to_dict :
    (o : GraphUpdateOp) (kind : RelationKind) (metadata : Details) (r : Relation)
    → relation kind metadata ≡ ok r
    → Stored (is_annotated_by r.kind) (record { operation = o; relation = r })
updater_from_dict-updater_to_dict o kind metadata r h =
    through o r.kind r.metadata (relation-Rebuilt kind metadata r h)
