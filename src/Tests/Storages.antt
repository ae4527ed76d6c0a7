-- ===== src/Tests/Storages.antt =====
-- Requests to the agent over the small back end.
use audit_zoo_bug_byters.Base.{
  refl, inl, inr, Bool, true, none, some, [], Text, codes, text_eq, contains,
}
use audit_zoo_bug_byters.Ir.Graph.Plain.{plain, plain-IsMultiDiGraph}
use audit_zoo_bug_byters.Ir.Backend.{Result, ok}
use audit_zoo_bug_byters.Ir.View.Cache.{Preload}
use audit_zoo_bug_byters.Ir.View.Invariant.{IsView}
use audit_zoo_bug_byters.Ir.Storage.{Payload, Request}
use audit_zoo_bug_byters.Ir.Storage.Dispatch.{handle_request, remove_prefix}
use audit_zoo_bug_byters.Ir.Storage.Requests.{
  handle_request-IsView, handle_request-Refuses, Refuses,
}
use audit_zoo_bug_byters.Tests.Views.{toy, toy-FindsById, started, started-IsView}

abbrev defaults : Preload
defaults = record {
  function_kind = codes "Function";
  file_kind = codes "File";
  calls_kind = codes "Calls";
  skip_calls = [];
  skip_facts = codes "1";
}

abbrev asks_unit : Payload
asks_unit = record {
  query = none;
  response_ty = none;
  file_path = none;
  line_start = none;
  line_end = none;
  column_start = none;
  unit_id = some (codes "f");
  kind = none;
  direction = none;
  fetch_backend = none;
  sync_to_backend = none;
}

abbrev get_request : Request
get_request = record { request_type = codes "ir.get_unit"; payload = asks_unit }

abbrev filter_request : Request
filter_request = record { request_type = codes "ir.filter_graph"; payload = asks_unit }

abbrev fits : Text → Payload → Result Bool
fits name p = ok true

handle_request-IsView_example :
    IsView plain (handle_request plain toy defaults fits get_request started).1.0
handle_request-IsView_example =
    handle_request-IsView plain plain-IsMultiDiGraph toy toy-FindsById defaults fits get_request
      started started-IsView

handle_request-Refuses_example :
    Refuses plain toy defaults started
      (handle_request plain toy defaults fits filter_request started)
unfolding contains text_eq remove_prefix
handle_request-Refuses_example =
    handle_request-Refuses plain toy defaults fits filter_request started (inr (inl refl))
