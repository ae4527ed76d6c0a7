-- ===== src/Ir/Facts.antt =====
-- auditzoo/core/ir/facts/base.py: the registries of the classes of facts, and the dicts that facts
-- are stored as. The subclasses with their `_to_kwargs` and `_from_kwargs` are in other files: a class
-- is a record of them, and a fact has a class. The keyword arguments are a type of their own.
pub mod RoundTrip
pub mod Builtin
pub mod Stored
use audit_zoo_bug_byters.Base.{
  Bool, true, false, Option, none, some, List, [], ◌∷◌, Text, codes, text_eq, is_empty,
  if◌then◌else◌,
}
use audit_zoo_bug_byters.Ir.Backend.{Result, ok, raised, key_error, other, result_bind}

-- A subclass of `UnitFact` or `RelationFact`.
pub record FactClass (K F : Type 0) : Type 0 where
  pub name : Text
  pub to_kwargs : F → K
  pub from_kwargs : K → Result F

-- The keys of the dict of a fact, which may be missing.
pub record FactDict (K : Type 0) : Type 0 where
  pub kind : Option Text
  pub class_name : Option Text
  pub kwargs : Option K

pub data AnyFact (U R : Type 0) : Type 0 where
  unit_fact : U → AnyFact U R
  relation_fact : R → AnyFact U R

-- `data.get("kwargs", {})`
unfoldable pub kwargs_or : {K : Type 0} → K → Option K → K
kwargs_or no_kwargs none = no_kwargs
kwargs_or no_kwargs (some kwargs) = kwargs

module _ {K F : Type 0} where
  -- `cls._registry[cls.__name__] = cls`
  unfoldable pub register :
      FactClass K F → List (Text × FactClass K F) → List (Text × FactClass K F)
  unfolding text_eq
  register c [] = (c.name, c) ∷ []
  register c ((k, d) ∷ registry) =
      let rest = register c registry in
      if text_eq k c.name then (k, c) ∷ registry else (k, d) ∷ rest

  -- The classes in the order of their definitions.
  unfoldable pub register_all :
      List (FactClass K F) → List (Text × FactClass K F) → List (Text × FactClass K F)
  unfolding register
  register_all [] registry = registry
  register_all (c ∷ cs) registry = register_all cs (register c registry)

  -- `cls._registry.get(kind_name)`
  unfoldable pub registered : List (Text × FactClass K F) → Text → Option (FactClass K F)
  unfolding text_eq
  registered [] kind_name = none
  registered ((k, c) ∷ registry) kind_name =
      let rest = registered registry kind_name in if text_eq k kind_name then some c else rest

  -- The class that `from_dict` found, or not.
  unfoldable pub build : Option (FactClass K F) → K → Result F
  build none kwargs = raised (other (codes "IRRelationKindError"))
  build (some c) kwargs = c.from_kwargs kwargs

  -- `UnitFact.from_dict` and `RelationFact.from_dict`, each with its registry
  unfoldable pub from_dict : K → List (Text × FactClass K F) → FactDict K → Result F
  unfolding registered kwargs_or build
  from_dict no_kwargs registry fact_data = elim fact_data.class_name [
    | none ↦ raised key_error
    | some kind_name ↦ build (registered registry kind_name) (kwargs_or no_kwargs fact_data.kwargs)
  ]

  -- `to_dict`, with the kind that the base class writes
  unfoldable pub to_dict : Text → FactClass K F → F → FactDict K
  to_dict kind c fact = record {
    kind = some kind;
    class_name = some c.name;
    kwargs = some (c.to_kwargs fact);
  }

module _ {K U R : Type 0} (no_kwargs : K) (unit_classes : List (Text × FactClass K U))
    (relation_classes : List (Text × FactClass K R)) where
  -- The cases of a kind that is there.
  unfoldable pub deserialize_kind : Text → FactDict K → Result (AnyFact U R)
  unfolding text_eq from_dict
  deserialize_kind kind fact_data =
      if is_empty kind
      then raised (other (codes "IRInvalidFactError"))
      else if text_eq kind (codes "unit")
      then result_bind (from_dict no_kwargs unit_classes fact_data) (λ fact. ok (unit_fact fact))
      else if text_eq kind (codes "relation")
      then result_bind (from_dict no_kwargs relation_classes fact_data)
          (λ fact. ok (relation_fact fact))
      else raised (other (codes "IRInvalidFactError"))

  unfoldable pub deserialize_fact : FactDict K → Result (AnyFact U R)
  unfolding deserialize_kind
  deserialize_fact fact_data = elim fact_data.kind [
    | none ↦ raised (other (codes "IRInvalidFactError"))
    | some kind ↦ deserialize_kind kind fact_data
  ]
