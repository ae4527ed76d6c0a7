-- ===== src/Ir/Storage/Dispatch.antt =====
-- auditzoo/core/agents/ir_storage_agent.py: `_handle_request`.
use audit_zoo_bug_byters.Base.{
  Bool, true, Option, none, some, List, [], ◌∷◌, Text, codes, text_eq, starts_with, contains, drop,
  length, if◌then◌else◌,
}
use audit_zoo_bug_byters.Ir.Graph.{MultiDiGraph}
use audit_zoo_bug_byters.Ir.Backend.{Backend, Result, ok, raised, other, Action, pure, reads, ◌>>=◌}
use audit_zoo_bug_byters.Ir.View.{World}
use audit_zoo_bug_byters.Ir.View.Cache.{Preload}
use audit_zoo_bug_byters.Ir.Storage.{
  Payload, Request, invalid_request, unknown_request, operation_failed, Response, response_fail,
}
use audit_zoo_bug_byters.Ir.Storage.Handlers.{
  Handler, handle_query, handle_fetch_unit, handle_get_unit, handle_has_unit,
  handle_get_all_units_by_kind, handle_get_all_units, handle_get_all_relations_by_kind,
  handle_get_related_units, handle_get_all_relations, handle_unimplemented, handle_load_facts,
  handle_preload_from_backend, handle_sync_backend, handle_get_graph_stats, handle_reload,
  handle_cleanup,
}

-- `s.removeprefix(p)`
unfoldable pub remove_prefix : Text → Text → Text
unfolding starts_with
remove_prefix s p = if starts_with s p then drop (length p) s else s

-- What a request asks for.
abbrev pub name_of : Request → Text
name_of message = remove_prefix message.request_type (codes "ir.")

-- The requests that have a schema.
abbrev pub request_schemas : List Text
request_schemas =
    codes "query"
    ∷ codes "fetch_unit"
    ∷ codes "get_unit"
    ∷ codes "has_unit"
    ∷ codes "get_all_units_by_kind"
    ∷ codes "get_all_relations_by_kind"
    ∷ codes "get_related_units"
    ∷ codes "get_unit_facts"
    ∷ codes "get_relation_facts"
    ∷ codes "filter_graph"
    ∷ codes "get_reachable_units"
    ∷ codes "find_shortest_path"
    ∷ []

-- The handlers that a request may name.
abbrev pub unimplemented : List Text
unimplemented =
    codes "filter_graph"
    ∷ codes "get_reachable_units"
    ∷ codes "find_shortest_path"
    ∷ codes "add_unit_fact"
    ∷ codes "add_relation_fact"
    ∷ codes "get_unit_facts"
    ∷ codes "get_relation_facts"
    ∷ []

-- `d.get(name)`, for a dict as an association list
unfoldable pub named : {A : Type 0} → List (Text × A) → Text → Option A
named [] name = none
named ((n, a) ∷ rest) name = let later = named rest name in if text_eq n name then some a else later

module _ {G S : Type 0} (nx : MultiDiGraph G) (backend : Backend S) (preload : Preload) where
  -- `_handle_request` has such a name too; it is called without its second argument, which raises.
  abbrev pub handle_nested : Handler nx backend preload
  handle_nested p = reads (λ _. raised (other (codes "TypeError")))

  abbrev pub handlers : List (Text × Handler nx backend preload)
  handlers =
      (codes "query", handle_query nx backend preload)
      ∷ (codes "fetch_unit", handle_fetch_unit nx backend preload)
      ∷ (codes "get_unit", handle_get_unit nx backend preload)
      ∷ (codes "has_unit", handle_has_unit nx backend preload)
      ∷ (codes "get_all_units_by_kind", handle_get_all_units_by_kind nx backend preload)
      ∷ (codes "get_all_units", handle_get_all_units nx backend preload)
      ∷ (codes "get_all_relations_by_kind", handle_get_all_relations_by_kind nx backend preload)
      ∷ (codes "get_related_units", handle_get_related_units nx backend preload)
      ∷ (codes "get_all_relations", handle_get_all_relations nx backend preload)
      ∷ (codes "load_facts", handle_load_facts nx backend preload)
      ∷ (codes "preload_from_backend", handle_preload_from_backend nx backend preload)
      ∷ (codes "sync_backend", handle_sync_backend nx backend preload)
      ∷ (codes "get_graph_stats", handle_get_graph_stats nx backend preload)
      ∷ (codes "reload", handle_reload nx backend preload)
      ∷ (codes "cleanup", handle_cleanup nx backend preload)
      ∷ (codes "request", handle_nested)
      ∷ []

  -- `getattr(self, f"_handle_{request_type}", None)`
  unfoldable pub handler_of : Text → Option (Handler nx backend preload)
  unfolding named contains
  handler_of request_type =
      if contains unimplemented request_type
      then some (handle_unimplemented nx backend preload)
      else named handlers request_type

  -- `message.validate(...)`, for a request with a schema, with the parameter for the check
  unfoldable pub validated : (Text → Payload → Result Bool) → Text → Payload → Result Bool
  unfolding contains
  validated validate request_type p =
      if contains request_schemas request_type then validate request_type p else ok true

  unfoldable pub route : Option (Handler nx backend preload) → Payload → Action (World G S) Response
  unfolding response_fail
  route none p = pure (response_fail unknown_request)
  route (some handler) p = handler p

  -- The body of the `try`.
  unfoldable pub handle_body :
      (Text → Payload → Result Bool) → Request → Action (World G S) Response
  unfolding remove_prefix validated handler_of route response_fail
  handle_body validate message = do
    let request_type = name_of message
    fits ← reads (λ _. validated validate request_type message.payload)
    if fits
        then route (handler_of request_type) message.payload
        else pure (response_fail invalid_request)

  -- `except Exception`
  unfoldable pub caught : Result Response × World G S → Response × World G S
  unfolding response_fail
  caught (ok response, w) = (response, w)
  caught (raised e, w) = (response_fail (operation_failed e), w)

  unfoldable pub handle_request :
      (Text → Payload → Result Bool) → Request → World G S → Response × World G S
  unfolding handle_body caught
  handle_request validate message w = caught (handle_body validate message w)
