-- ===== src/Ir/Facts/Stored.antt =====
-- auditzoo/core/ir/facts: the facts of the repository's own classes, stored as dicts.
use mathlib.Core.Path.{subst}
use audit_zoo_bug_byters.Base.{◌≡◌, refl, List, [], ◌∷◌, ◌++◌, codes}
use audit_zoo_bug_byters.Ir.Backend.{ok}
use audit_zoo_bug_byters.Ir.Facts.{
  FactClass, register_all, to_dict, deserialize_fact, unit_fact, relation_fact,
}
use audit_zoo_bug_byters.Ir.Facts.RoundTrip.{ok_guarded, Unnamed, read_back}
use audit_zoo_bug_byters.Ir.Facts.Builtin.{
  SummaryFact, summary_to_kwargs, summary_from_kwargs, summary_class, CallFact, call_fact,
  call_to_kwargs, call_from_kwargs, call_class, JsonValue, Details, Kwargs, is_reserved,
}

summary_from_kwargs-summary_to_kwargs :
    (fact : SummaryFact) → summary_from_kwargs (summary_to_kwargs fact) ≡ ok fact
unfolding summary_from_kwargs summary_to_kwargs
summary_from_kwargs-summary_to_kwargs fact = refl

-- A call that has been constructed is constructed again.
abbrev Rebuilt : CallFact → Type 0
Rebuilt fact = call_fact fact.source_node_id fact.target_node_id fact.metadata ≡ ok fact

call_fact-Rebuilt :
    (source target : JsonValue) (d : Details) (fact : CallFact)
    → call_fact source target d ≡ ok fact
    → Rebuilt fact
unfolding call_fact
call_fact-Rebuilt source target d fact h =
    let (clear, same) = ok_guarded (is_reserved d) _ _ fact h in subst Rebuilt same (rw clear refl)

call_from_kwargs-call_to_kwargs :
    (fact : CallFact) → Rebuilt fact → call_from_kwargs (call_to_kwargs fact) ≡ ok fact
unfolding call_from_kwargs call_to_kwargs
call_from_kwargs-call_to_kwargs fact again = again

-- A SummaryFact, and a CallFact that its constructor has returned, come back from their dicts, whatever other classes are registered, if none that is defined later has the name of theirs.
pub deserialize_fact-to_dict :
    (us us' : List (FactClass Kwargs SummaryFact)) (rs rs' : List (FactClass Kwargs CallFact))
    (u : SummaryFact) (source target : JsonValue) (metadata : Details) (r : CallFact)
    → Unnamed (codes "SummaryFact") us'
    → Unnamed (codes "CallFact") rs'
    → call_fact source target metadata ≡ ok r
    → let read =
        deserialize_fact []
          (register_all (us ++ (summary_class ∷ us')) [])
          (register_all (rs ++ (call_class ∷ rs')) []) in
      (read (to_dict (codes "unit") summary_class u) ≡ ok (unit_fact u))
      × (read (to_dict (codes "relation") call_class r) ≡ ok (relation_fact r))
deserialize_fact-to_dict us us' rs rs' u source target metadata r last last' made =
    read_back [] us summary_class us' rs call_class rs' u r last last'
      (summary_from_kwargs-summary_to_kwargs u)
      (call_from_kwargs-call_to_kwargs r (call_fact-Rebuilt source target metadata r made))
