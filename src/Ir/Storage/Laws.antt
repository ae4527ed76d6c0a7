-- ===== src/Ir/Storage/Laws.antt =====
-- What the agent does to the view that it serves.
use audit_zoo_bug_byters.Base.{Bool, true, false, Option, none, some, Text, codes}
use audit_zoo_bug_byters.Ir.Model.{CodeLocation, CodeUnit}
use audit_zoo_bug_byters.Ir.Graph.{MultiDiGraph, IsMultiDiGraph}
use audit_zoo_bug_byters.Ir.Backend.{
  Backend, Result, ok, raised, Action, pure, reads, continue, ◌>>=◌,
}
use audit_zoo_bug_byters.Ir.View.{World, ask, or_key_error}
use audit_zoo_bug_byters.Ir.View.Units.{get_unit, fetch_unit, get_all_units}
use audit_zoo_bug_byters.Ir.View.Relations.{get_all_relations}
use audit_zoo_bug_byters.Ir.View.Cache.{Preload}
use audit_zoo_bug_byters.Ir.View.Invariant.{IsView}
use audit_zoo_bug_byters.Ir.View.Invariant.Units.{has_unit-Keeps}
use audit_zoo_bug_byters.Ir.View.Invariant.Checks.{FindsById}
use audit_zoo_bug_byters.Ir.View.Invariant.Caches.{
  Call, getting, fetching, listing, relating, following, loading, preloading, syncing, reloading,
  cleaning, perform, perform-IsView,
}
use audit_zoo_bug_byters.Ir.View.Stats.{get_graph_stats}
use audit_zoo_bug_byters.Ir.Storage.{
  KindValue, unit_kind, relation_kind, no_kind, Payload, Answer, raw, flag, units, rows, related,
  stats, wrong_kind, unit_not_found, response_ok, response_fail,
}
use audit_zoo_bug_byters.Ir.Storage.Handlers.{
  Handler, get_or, at_key, unit_response, done, no_data, list_kind, list_relations, relate,
  relate_found, handle_query, handle_fetch_unit, handle_get_unit, handle_has_unit,
  handle_get_all_units_by_kind, handle_get_all_units, handle_get_all_relations_by_kind,
  handle_get_related_units, handle_get_all_relations, handle_load_facts,
  handle_preload_from_backend, handle_sync_backend, handle_get_graph_stats, handle_reload,
  handle_cleanup,
}

module _ {G S : Type 0} (nx : MultiDiGraph G) (laws : IsMultiDiGraph nx) (backend : Backend S)
    (honest : FindsById backend) (preload : Preload) where
  -- A call that keeps the invariant of the view.
  pub record Safe {A : Type 0} (m : Action (World G S) A) : Type 0 where
    pub at : (w : World G S) → IsView nx w.0 → IsView nx (m w).1.0

  continue-IsView :
      {A B : Type 0} (f : A → Action (World G S) B)
      → ((a : A) → Safe (f a))
      → (r : Result A × World G S) → IsView nx r.1.0
      → IsView nx (continue f r).1.0
  continue-IsView f k (ok a, w) h = (k a).at w h
  continue-IsView f k (raised e, w) h = h

  pub >>=-Safe :
      {A B : Type 0} {m : Action (World G S) A} {f : A → Action (World G S) B}
      → Safe m
      → ((a : A) → Safe (f a))
      → Safe (m >>= f)
  >>=-Safe {m = m} {f = f} p q = record { at = λ w h. continue-IsView f q (m w) (p.at w h) }

  pub reads-Safe : {A : Type 0} (f : World G S → Result A) → Safe (reads f)
  reads-Safe f = record { at = λ w h. h }

  at_key-Safe : {A : Type 0} (o : Option A) → Safe (at_key o)
  at_key-Safe o = reads-Safe (λ _. or_key_error o)

  pub pure-Safe : {A : Type 0} (a : A) → Safe (pure a)
  pure-Safe a = reads-Safe (λ _. ok a)

  ask-Safe : {A : Type 0} (call : Action S A) → Safe (ask call)
  ask-Safe call = record { at = λ w h. h }

  -- The calls of the view.
  call-Safe : (c : Call) (w : World G S) → IsView nx w.0 → IsView nx (perform nx backend c w).0
  call-Safe = perform-IsView nx laws backend honest

  get_unit-Safe : (i : Text) (b : Bool) → Safe (get_unit nx backend i b)
  unfolding perform
  get_unit-Safe i b = record { at = call-Safe (getting i b) }

  done-Safe :
      {A : Type 0} (answer : A → Answer) {call : Action (World G S) A}
      → Safe call
      → Safe (done nx backend preload answer call)
  unfolding done
  done-Safe answer h = >>=-Safe h λ a. pure-Safe (response_ok (answer a))

  list_kind-Safe : (k : KindValue) (b : Bool) → Safe (list_kind nx backend preload k b)
  unfolding list_kind perform
  list_kind-Safe (unit_kind kind) b = done-Safe units (record { at = call-Safe (listing kind b) })
  list_kind-Safe (relation_kind kind) b = pure-Safe (response_fail wrong_kind)
  list_kind-Safe no_kind b = pure-Safe (response_fail wrong_kind)

  list_relations-Safe : (k : KindValue) (b : Bool) → Safe (list_relations nx backend preload k b)
  unfolding list_relations perform
  list_relations-Safe (relation_kind kind) b =
      done-Safe rows (record { at = call-Safe (relating kind b) })
  list_relations-Safe (unit_kind kind) b = pure-Safe (response_fail wrong_kind)
  list_relations-Safe no_kind b = pure-Safe (response_fail wrong_kind)

  relate_found-Safe :
      (o : Option CodeUnit) (k : KindValue) (d : Text) (b : Bool)
      → Safe (relate_found nx backend preload o k d b)
  unfolding relate_found relate perform
  relate_found-Safe none k d b = pure-Safe (response_fail unit_not_found)
  relate_found-Safe (some u) (relation_kind kind) d b =
      done-Safe related (record { at = call-Safe (following u kind d b) })
  relate_found-Safe (some u) (unit_kind kind) d b = pure-Safe (response_fail wrong_kind)
  relate_found-Safe (some u) no_kind d b = pure-Safe (response_fail wrong_kind)

  -- A handler that keeps the invariant.
  abbrev pub IsSafe : Handler nx backend preload → Type 0
  IsSafe handler = (p : Payload) → Safe (handler p)

  pub handle_query-IsSafe : IsSafe (handle_query nx backend preload)
  unfolding handle_query
  handle_query-IsSafe p =
      >>=-Safe (at_key-Safe p.query) λ query.
        done-Safe raw (ask-Safe (backend.query query (get_or p.response_ty (codes "json"))))

  pub handle_fetch_unit-IsSafe : IsSafe (handle_fetch_unit nx backend preload)
  unfolding handle_fetch_unit perform
  handle_fetch_unit-IsSafe p = >>=-Safe (at_key-Safe p.file_path) λ file_path.
      >>=-Safe (at_key-Safe p.line_start) λ line_start.
        >>=-Safe (at_key-Safe p.line_end) λ line_end.
          let l : CodeLocation = record {
            file_path = file_path;
            line_start = line_start;
            line_end = line_end;
            column_start = p.column_start;
          } in
          let fetch : Safe (fetch_unit nx backend l) = record { at = call-Safe (fetching l) } in
          >>=-Safe fetch λ u. pure-Safe (unit_response u)

  pub handle_get_unit-IsSafe : IsSafe (handle_get_unit nx backend preload)
  unfolding handle_get_unit
  handle_get_unit-IsSafe p =
      >>=-Safe (at_key-Safe p.unit_id) λ i.
        >>=-Safe (get_unit-Safe i (get_or p.fetch_backend true)) λ u. pure-Safe (unit_response u)

  pub handle_has_unit-IsSafe : IsSafe (handle_has_unit nx backend preload)
  unfolding handle_has_unit
  handle_has_unit-IsSafe p = >>=-Safe (at_key-Safe p.unit_id) λ i. done-Safe flag (record {
    at = λ w. ((has_unit-Keeps nx laws backend i (get_or p.fetch_backend true)).at w).kept;
  })

  pub handle_get_all_units_by_kind-IsSafe : IsSafe (handle_get_all_units_by_kind nx backend preload)
  unfolding handle_get_all_units_by_kind
  handle_get_all_units_by_kind-IsSafe p =
      >>=-Safe (at_key-Safe p.kind) λ k. list_kind-Safe k (get_or p.fetch_backend true)

  pub handle_get_all_relations_by_kind-IsSafe :
      IsSafe (handle_get_all_relations_by_kind nx backend preload)
  unfolding handle_get_all_relations_by_kind
  handle_get_all_relations_by_kind-IsSafe p =
      >>=-Safe (at_key-Safe p.kind) λ k. list_relations-Safe k (get_or p.fetch_backend true)

  pub handle_get_related_units-IsSafe : IsSafe (handle_get_related_units nx backend preload)
  unfolding handle_get_related_units
  handle_get_related_units-IsSafe p = >>=-Safe (at_key-Safe p.unit_id) λ i.
      >>=-Safe (at_key-Safe p.kind) λ k. >>=-Safe (at_key-Safe p.direction) λ d.
        >>=-Safe (get_unit-Safe i (get_or p.fetch_backend true))
          λ o. relate_found-Safe o k d (get_or p.fetch_backend true)

  pub handle_get_graph_stats-IsSafe : IsSafe (handle_get_graph_stats nx backend preload)
  unfolding handle_get_graph_stats
  handle_get_graph_stats-IsSafe p = done-Safe stats (reads-Safe (λ w. get_graph_stats nx w.0))

  pub read_handlers-IsSafe :
      IsSafe (handle_get_all_units nx backend preload)
      × IsSafe (handle_get_all_relations nx backend preload)
  unfolding handle_get_all_units handle_get_all_relations
  read_handlers-IsSafe = (
    λ p. done-Safe units (reads-Safe (λ w. get_all_units nx backend w.0)),
    λ p. done-Safe rows (reads-Safe (λ w. get_all_relations nx backend w.0)),
  )

  pub cache_handlers-IsSafe :
      IsSafe (handle_load_facts nx backend preload)
      × IsSafe (handle_preload_from_backend nx backend preload)
      × IsSafe (handle_sync_backend nx backend preload)
      × IsSafe (handle_reload nx backend preload)
      × IsSafe (handle_cleanup nx backend preload)
  unfolding handle_load_facts handle_preload_from_backend handle_sync_backend handle_reload
      handle_cleanup perform
  cache_handlers-IsSafe = (
    λ p. done-Safe (no_data nx backend preload) (record { at = call-Safe loading }),
    λ p. done-Safe (no_data nx backend preload) (record { at = call-Safe (preloading preload) }),
    λ p. done-Safe (no_data nx backend preload) (record { at = call-Safe syncing }),
    λ p. done-Safe (no_data nx backend preload) (record { at = call-Safe (reloading preload) }),
    λ p.
        done-Safe (no_data nx backend preload)
          (record { at = call-Safe (cleaning (get_or p.sync_to_backend false)) }),
  )
