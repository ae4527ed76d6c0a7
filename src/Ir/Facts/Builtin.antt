-- ===== src/Ir/Facts/Builtin.antt =====
-- auditzoo/core/ir/facts/unit_facts/summary.py and relation_facts/call.py: the two classes of facts that
-- the repository defines. What is nested in the details or the metadata is kept as its JSON text. The
-- graph updater of a call is not a field: it adds an edge of the kind Calls with the metadata.
use audit_zoo_bug_byters.Base.{
  Bool, false, ◌||◌, Option, none, some, List, [], ◌∷◌, Text, codes, text_eq, if◌then◌else◌,
}
use audit_zoo_bug_byters.Ir.Backend.{Result, ok, raised, key_error, other, result_bind}
use audit_zoo_bug_byters.Ir.Facts.{FactClass}

abbrev pub Details : Type 0
Details = List (Text × Text)

pub data JsonValue : Type 0 where
  text_value : Text → JsonValue
  dict_value : Details → JsonValue
  other_value : Text → JsonValue

abbrev pub Kwargs : Type 0
Kwargs = List (Text × JsonValue)

-- `kwargs.get(key)`
unfoldable pub value_of : Text → Kwargs → Option JsonValue
unfolding text_eq
value_of key [] = none
value_of key ((k, v) ∷ kwargs) =
    let rest = value_of key kwargs in if text_eq k key then some v else rest

-- `kwargs.get(key, default)`
unfoldable pub value_or : JsonValue → Option JsonValue → JsonValue
value_or default none = default
value_or default (some v) = v

-- `kwargs[key]`
unfoldable pub required : Option JsonValue → Result JsonValue
required none = raised key_error
required (some v) = ok v

pub record SummaryFact : Type 0 where
  pub name : JsonValue
  pub summary : JsonValue
  pub details : JsonValue

unfoldable pub summary_to_kwargs : SummaryFact → Kwargs
summary_to_kwargs fact =
    (codes "name", fact.name)
    ∷ (codes "summary", fact.summary)
    ∷ (codes "details", fact.details)
    ∷ []

unfoldable pub summary_from_kwargs : Kwargs → Result SummaryFact
unfolding value_of value_or
summary_from_kwargs kwargs = ok (record {
  name = value_or (text_value []) (value_of (codes "name") kwargs);
  summary = value_or (text_value []) (value_of (codes "summary") kwargs);
  details = value_or (dict_value []) (value_of (codes "details") kwargs);
})

pub record CallFact : Type 0 where
  pub source_node_id : JsonValue
  pub target_node_id : JsonValue
  pub metadata : Details

unfoldable pub has_key : Text → Details → Bool
unfolding text_eq
has_key key [] = false
has_key key ((k, v) ∷ d) = text_eq k key || has_key key d

-- The name of a parameter of `CallFact.__init__` or of `CodeUnitRelation.__init__` is a key.
unfoldable pub is_reserved : Details → Bool
unfolding has_key
is_reserved kwargs =
    has_key (codes "self") kwargs
    || has_key (codes "source_node_id") kwargs
    || has_key (codes "target_node_id") kwargs
    || has_key (codes "kind") kwargs

-- `CallFact.__init__`, with its call of `CodeUnitRelation.__init__`. A parameter's name among the
-- keyword arguments is a TypeError.
unfoldable pub call_fact : JsonValue → JsonValue → Details → Result CallFact
unfolding is_reserved
call_fact source_node_id target_node_id kwargs =
    if is_reserved kwargs
    then raised (other (codes "TypeError"))
    else ok (record {
      source_node_id = source_node_id;
      target_node_id = target_node_id;
      metadata = kwargs;
    })

unfoldable pub call_to_kwargs : CallFact → Kwargs
call_to_kwargs fact =
    (codes "source_node_id", fact.source_node_id)
    ∷ (codes "target_node_id", fact.target_node_id)
    ∷ (codes "metadata", dict_value fact.metadata)
    ∷ []

-- `**kwargs.get("metadata", {})`, which is a TypeError for what is no dict
unfoldable pub unpacked : JsonValue → Result Details
unpacked (dict_value d) = ok d
unpacked (text_value t) = raised (other (codes "TypeError"))
unpacked (other_value t) = raised (other (codes "TypeError"))

unfoldable pub call_from_kwargs : Kwargs → Result CallFact
unfolding value_of value_or required unpacked call_fact
call_from_kwargs kwargs =
    result_bind (required (value_of (codes "source_node_id") kwargs)) (λ source.
      result_bind (required (value_of (codes "target_node_id") kwargs)) (λ target.
        result_bind (unpacked (value_or (dict_value []) (value_of (codes "metadata") kwargs)))
          (λ metadata. call_fact source target metadata)))

abbrev pub summary_class : FactClass Kwargs SummaryFact
summary_class = record {
  name = codes "SummaryFact";
  to_kwargs = summary_to_kwargs;
  from_kwargs = summary_from_kwargs;
}

abbrev pub call_class : FactClass Kwargs CallFact
call_class = record {
  name = codes "CallFact";
  to_kwargs = call_to_kwargs;
  from_kwargs = call_from_kwargs;
}
