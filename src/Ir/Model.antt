-- ===== src/Ir/Model.antt =====
-- auditzoo/core/ir/model/base.py and auditzoo/core/ir/facts/base.py: code units, the relations between
-- them, and the facts attached to them. The identifiers of units are texts. A kind is a text too, the
-- name of its class with its fields, since a kind is compared by these two alone; so are the metadata
-- of a relation.
pub mod Locations
use audit_zoo_bug_byters.Base.{
  Bool, not, false, true, ◌&&◌, ◌||◌, Option, none, some, ◌++◌, if◌then◌else◌, ℤ, leb_ℤ, eq_ℤ, Text,
  codes, text_eq, starts_with,
}

pub record CodeLocation : Type 0 where
  pub file_path : Text
  pub line_start : ℤ
  pub line_end : ℤ
  pub column_start : Option ℤ

-- Two columns, of which either may be missing, in the wrong order.
unfoldable pub columns_reversed : Option ℤ → Option ℤ → Bool
columns_reversed (some a) (some b) = not (leb_ℤ a b)
columns_reversed (some a) none = false
columns_reversed none b = false

-- `CodeLocation.contains`
unfoldable pub location_contains : CodeLocation → CodeLocation → Bool
unfolding columns_reversed
location_contains l other =
    if not (text_eq l.file_path other.file_path)
    then false
    else if not (leb_ℤ l.line_start other.line_start) || not (leb_ℤ other.line_end l.line_end)
    then false
    else if columns_reversed l.column_start other.column_start && eq_ℤ l.line_start other.line_start
    then false
    else true

pub record CodeUnitRelation : Type 0 where
  pub kind : Text
  pub metadata : Text

pub record CodeUnit : Type 0 where
  pub id : Text
  pub kind : Text
  pub code : Text
  pub name : Text
  pub location : CodeLocation
  pub metadata : Text

-- `CodeUnit.__eq__`
unfoldable pub same_unit : CodeUnit → CodeUnit → Bool
same_unit u other = text_eq u.id other.id

unfoldable pub is_synthetic_id : Text → Bool
is_synthetic_id unit_id = starts_with unit_id (codes "synthetic:")

unfoldable pub from_cpg : Text → Text → Text → Text → CodeLocation → Text → CodeUnit
from_cpg cpg_node_id kind code name location kwargs = record {
  id = cpg_node_id;
  kind = kind;
  code = code;
  name = name;
  location = location;
  metadata = kwargs;
}

unfoldable pub synthetic : Text → Text → Text → Text → CodeLocation → Text → CodeUnit
synthetic synthetic_id kind code name location kwargs = record {
  id = codes "synthetic:" ++ synthetic_id;
  kind = kind;
  code = code;
  name = name;
  location = location;
  metadata = kwargs;
}

pub data GraphUpdateOp : Type 0 where
  add_edge remove_edge : GraphUpdateOp

pub record GraphUpdater : Type 0 where
  pub operation : GraphUpdateOp
  pub relation : CodeUnitRelation

-- A fact is the name of its class with what its subclass stores.
pub record UnitFact : Type 0 where
  pub class_name : Text
  pub kwargs : Text

pub record RelationFact : Type 0 where
  pub class_name : Text
  pub kwargs : Text
  pub source_node_id : Text
  pub target_node_id : Text
  pub graph_updater : GraphUpdater
