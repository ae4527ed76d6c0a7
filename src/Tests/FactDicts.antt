-- ===== src/Tests/FactDicts.antt =====
-- Facts that are stored as dicts, beside classes of other names.
use audit_zoo_bug_byters.Base.{◌≡◌, refl, false, [], ◌∷◌, Text, codes, text_eq}
use audit_zoo_bug_byters.Ir.Backend.{Result, ok, raised, key_error}
use audit_zoo_bug_byters.Ir.Model.{remove_edge}
use audit_zoo_bug_byters.Ir.Kinds.{calls, Relation, relation}
use audit_zoo_bug_byters.Ir.Kinds.RoundTrip.{
  Stored, is_annotated_by, updater_from_dict-updater_to_dict,
}
use audit_zoo_bug_byters.Ir.Facts.{
  FactClass, FactDict, AnyFact, unit_fact, relation_fact, register_all, to_dict, deserialize_fact,
}
use audit_zoo_bug_byters.Ir.Facts.Builtin.{
  Kwargs, Details, text_value, dict_value, SummaryFact, summary_class, CallFact, call_fact,
  call_class,
}
use audit_zoo_bug_byters.Ir.Facts.Stored.{deserialize_fact-to_dict}

-- A class that refuses all keyword arguments, by its name.
abbrev refusing : Text → FactClass Kwargs CallFact
refusing name = record {
  name = name;
  to_kwargs = λ fact. [];
  from_kwargs = λ kwargs. raised key_error;
}

abbrev complexity : FactClass Kwargs SummaryFact
complexity = record {
  name = codes "Complexity";
  to_kwargs = λ fact. [];
  from_kwargs = λ kwargs. raised key_error;
}

abbrev found_taint : SummaryFact
found_taint = record {
  name = text_value (codes "taint");
  summary = text_value (codes "input reaches exec");
  details = dict_value ((codes "sink", codes "exec") ∷ []);
}

abbrev at_line : Details
at_line = (codes "callsite_line", codes "7") ∷ []

abbrev dynamic_call : CallFact
dynamic_call = record {
  source_node_id = text_value (codes "f");
  target_node_id = text_value (codes "g");
  metadata = at_line;
}

abbrev read_fact : FactDict Kwargs → Result (AnyFact SummaryFact CallFact)
read_fact =
    deserialize_fact [] (register_all (summary_class ∷ complexity ∷ []) [])
      (register_all (refusing (codes "CallFact") ∷ call_class ∷ refusing (codes "Flow") ∷ []) [])

deserialize_fact-to_dict_example :
    (read_fact (to_dict (codes "unit") summary_class found_taint) ≡ ok (unit_fact found_taint))
    × (read_fact (to_dict (codes "relation") call_class dynamic_call)
        ≡ ok (relation_fact dynamic_call))
unfolding text_eq call_fact
deserialize_fact-to_dict_example =
    deserialize_fact-to_dict [] (complexity ∷ []) (refusing (codes "CallFact") ∷ [])
      (refusing (codes "Flow") ∷ []) found_taint (text_value (codes "f")) (text_value (codes "g"))
      at_line dynamic_call (refl, tt) (refl, tt) refl

abbrev called_at : Relation
called_at = record { kind = calls; metadata = at_line }

updater_from_dict-updater_to_dict_example :
    Stored false (record { operation = remove_edge; relation = called_at })
unfolding text_eq relation is_annotated_by
updater_from_dict-updater_to_dict_example =
    updater_from_dict-updater_to_dict remove_edge calls at_line called_at refl
