-- ===== src/Ir/Kinds.antt =====
-- auditzoo/core/ir/model/base.py and model/relation_kinds: relations and their kinds as dicts, and the
-- dict of a graph updater of facts/base.py. The registry holds the four kinds of the repository; what
-- is nested in the metadata is kept as its JSON text.
pub mod RoundTrip
use audit_zoo_bug_byters.Base.{
  Bool, true, false, ◌||◌, Option, none, some, List, [], ◌∷◌, Text, codes, text_eq, if◌then◌else◌,
}
use audit_zoo_bug_byters.Ir.Model.{GraphUpdateOp, add_edge, remove_edge}
use audit_zoo_bug_byters.Ir.Backend.{Result, ok, raised, key_error, other, result_bind}
use audit_zoo_bug_byters.Ir.Facts.{kwargs_or}
use audit_zoo_bug_byters.Ir.Facts.Builtin.{
  JsonValue, dict_value, Kwargs, Details, has_key, value_of, value_or, required, unpacked,
}

pub data RelationKind : Type 0 where
  calls annotated_by : RelationKind
  contained_in contains_unit : JsonValue → RelationKind

unfoldable pub kind_name : RelationKind → Text
kind_name calls = codes "Calls"
kind_name annotated_by = codes "AnnotatedBy"
kind_name (contained_in level) = codes "ContainedIn"
kind_name (contains_unit level) = codes "Contains"

-- `_to_kwargs`
unfoldable pub kind_to_kwargs : RelationKind → Result Kwargs
kind_to_kwargs calls = ok []
kind_to_kwargs annotated_by = raised (other (codes "IRUnimplementedError"))
kind_to_kwargs (contained_in level) = ok ((codes "level", level) ∷ [])
kind_to_kwargs (contains_unit level) = ok ((codes "level", level) ∷ [])

-- `kwargs["level"]`
unfoldable pub level_of : Kwargs → Result JsonValue
unfolding value_of required
level_of kwargs = required (value_of (codes "level") kwargs)

-- The class of a name, with its `_from_kwargs`
unfoldable pub kind_from_kwargs : Text → Kwargs → Result RelationKind
unfolding text_eq level_of
kind_from_kwargs kind_name kwargs =
    if text_eq kind_name (codes "AnnotatedBy")
    then raised (other (codes "IRUnimplementedError"))
    else if text_eq kind_name (codes "Calls")
    then ok calls
    else if text_eq kind_name (codes "ContainedIn")
    then result_bind (level_of kwargs) (λ level. ok (contained_in level))
    else if text_eq kind_name (codes "Contains")
    then result_bind (level_of kwargs) (λ level. ok (contains_unit level))
    else raised (other (codes "IRRelationKindError"))

pub record KindDict : Type 0 where
  pub class_name : Option Text
  pub kwargs : Option Kwargs

-- `RelationKind.to_dict`
unfoldable pub kind_to_dict : RelationKind → Result KindDict
unfolding kind_name kind_to_kwargs
kind_to_dict kind =
    result_bind (kind_to_kwargs kind)
      (λ kwargs. ok (record { class_name = some (kind_name kind); kwargs = some kwargs }))

-- `RelationKind.from_dict`
unfoldable pub kind_from_dict : KindDict → Result RelationKind
unfolding kind_from_kwargs kwargs_or
kind_from_dict d = elim d.class_name [
  | none ↦ raised key_error
  | some name ↦ kind_from_kwargs name (kwargs_or [] d.kwargs)
]

-- A `CodeUnitRelation` with its metadata as a dict.
pub record Relation : Type 0 where
  pub kind : RelationKind
  pub metadata : Details

-- `CodeUnitRelation.__init__`. A parameter's name among the keyword arguments is a TypeError.
unfoldable pub relation : RelationKind → Details → Result Relation
unfolding has_key
relation kind kwargs =
    if has_key (codes "self") kwargs || has_key (codes "kind") kwargs
    then raised (other (codes "TypeError"))
    else ok (record { kind = kind; metadata = kwargs })

pub record RelationDict : Type 0 where
  pub kind : Option KindDict
  pub metadata : Option JsonValue

-- `CodeUnitRelation.to_dict`
unfoldable pub relation_to_dict : Relation → Result RelationDict
unfolding kind_to_dict
relation_to_dict r =
    result_bind (kind_to_dict r.kind)
      (λ kind. ok (record { kind = some kind; metadata = some (dict_value r.metadata) }))

-- `CodeUnitRelation.from_dict`
unfoldable pub relation_from_dict : RelationDict → Result Relation
unfolding kind_from_dict value_or unpacked relation
relation_from_dict d = elim d.kind [
  | none ↦ raised key_error
  | some kind_dict ↦ result_bind (kind_from_dict kind_dict) (λ kind.
      result_bind (unpacked (value_or (dict_value []) d.metadata))
        (λ metadata. relation kind metadata))
]

-- `GraphUpdater`, over such a relation
pub record Updater : Type 0 where
  pub operation : GraphUpdateOp
  pub relation : Relation

pub record UpdaterDict : Type 0 where
  pub operation : Option Text
  pub relation : Option RelationDict

-- `operation.value`
unfoldable pub op_value : GraphUpdateOp → Text
op_value add_edge = codes "add_edge"
op_value remove_edge = codes "remove_edge"

-- `GraphUpdateOp(value)`
unfoldable pub op_of : Text → Result GraphUpdateOp
unfolding text_eq
op_of value =
    if text_eq value (codes "add_edge")
    then ok add_edge
    else if text_eq value (codes "remove_edge")
    then ok remove_edge
    else raised (other (codes "ValueError"))

-- `GraphUpdater.to_dict`
unfoldable pub updater_to_dict : Updater → Result UpdaterDict
unfolding op_value relation_to_dict
updater_to_dict u =
    result_bind (relation_to_dict u.relation)
      (λ d. ok (record { operation = some (op_value u.operation); relation = some d }))

-- The relation of the dict, which is read after the operation.
unfoldable pub with_relation : GraphUpdateOp → Option RelationDict → Result Updater
unfolding relation_from_dict
with_relation operation none = raised key_error
with_relation operation (some d) =
    result_bind (relation_from_dict d)
      (λ relation. ok (record { operation = operation; relation = relation }))

-- `GraphUpdater.from_dict`
unfoldable pub updater_from_dict : UpdaterDict → Result Updater
unfolding op_of with_relation
updater_from_dict d = elim d.operation [
  | none ↦ raised key_error
  | some value ↦ result_bind (op_of value) (λ operation. with_relation operation d.relation)
]
