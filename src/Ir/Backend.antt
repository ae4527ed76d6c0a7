-- ===== src/Ir/Backend.antt =====
-- auditzoo/core/ir/backend_api.py: what the view asks of a back end. A back end has a state of its own,
-- and each call answers or raises. `Action` is a call on a state that raises or returns; the state
-- comes back after a raise too.
use audit_zoo_bug_byters.Base.{Bool, Option, List, Text, if◌then◌else◌}
use audit_zoo_bug_byters.Ir.Model.{CodeLocation, CodeUnit, CodeUnitRelation, UnitFact, RelationFact}

-- The exceptions that the view raises, those that it lets through, and any other.
pub data Exn : Type 0 where
  ir_value_error : Exn
  runtime_error : Exn
  key_error : Exn
  networkx_error : Exn
  other : Text → Exn

pub data Result (A : Type 0) : Type 0 where
  ok : A → Result A
  raised : Exn → Result A

abbrev pub Action : Type 0 → Type 0 → Type 0
Action W A = W → Result A × W

module _ {W A : Type 0} where
  abbrev pub pure : A → Action W A
  pure a w = (ok a, w)

  abbrev pub raise : Exn → Action W A
  raise e w = (raised e, w)

  abbrev pub gets : (W → A) → Action W A
  gets f w = (ok (f w), w)

  -- Reads what may raise.
  abbrev pub reads : (W → Result A) → Action W A
  reads f w = (f w, w)

-- What follows a call: nothing where it raised.
abbrev pub continue : {W A B : Type 0} → (A → Action W B) → Result A × W → Result B × W
continue f (ok a, w) = f a w
continue f (raised e, w) = (raised e, w)

infixl 5 ◌>>=◌ ◌>>◌
abbrev pub ◌>>=◌ : {W A B : Type 0} → Action W A → (A → Action W B) → Action W B
◌>>=◌ m f w = continue f (m w)

abbrev pub ◌>>◌ : {W A B : Type 0} → Action W A → Action W B → Action W B
m >> k = m >>= λ _. k

abbrev pub modify : {W : Type 0} → (W → W) → Action W (Unit {0})
modify f w = (ok tt, f w)

abbrev pub raise_if : {W : Type 0} → Bool → Exn → Action W (Unit {0})
raise_if c e w = (if c then raised e else ok tt, w)

abbrev pub result_bind : {A B : Type 0} → Result A → (A → Result B) → Result B
result_bind (ok a) f = f a
result_bind (raised e) f = raised e

-- `RelationDirection`
pub data Direction : Type 0 where
  incoming outgoing : Direction

-- `CPGBackend`, with the state of the back end.
pub record Backend (S : Type 0) : Type 0 where
  pub query : Text → Text → Action S Text
  pub get_relation_tags : Action S (List RelationFact)
  pub get_unit_tags : CodeUnit → Action S (List UnitFact)
  pub set_unit_tag : CodeUnit → UnitFact → Action S (Unit {0})
  pub set_relation_tag : RelationFact → Action S (Unit {0})
  pub get_code_unit_by_location : CodeLocation → Action S (Option CodeUnit)
  pub get_code_unit : Text → Action S (Option CodeUnit)
  pub get_code_units : Text → Action S (List CodeUnit)
  pub get_relations : CodeUnit → Text → Direction → Action S (List (CodeUnit × CodeUnitRelation))
  pub reload : Action S (Unit {0})
