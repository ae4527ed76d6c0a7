-- ===== src/Ir/Storage/Requests.antt =====
-- The view under requests, and the requests that are refused.
use audit_zoo_bug_byters.Base.{
  ◌≡◌, ◌≢◌, refl, ◌⊎◌, inl, inr, Bool, Bool-cases, true, false, Option, none, some, List, [], ◌∷◌,
  Text, text_eq, contains, if◌then◌else◌,
}
use audit_zoo_bug_byters.Ir.Graph.{MultiDiGraph, IsMultiDiGraph}
use audit_zoo_bug_byters.Ir.Backend.{Backend, Result, ok, raised, pure, continue}
use audit_zoo_bug_byters.Ir.View.{World}
use audit_zoo_bug_byters.Ir.View.Cache.{Preload}
use audit_zoo_bug_byters.Ir.View.Invariant.{IsView}
use audit_zoo_bug_byters.Ir.View.Invariant.Checks.{FindsById}
use audit_zoo_bug_byters.Ir.Storage.{
  Payload, Request, invalid_request, unknown_request, Response, response_fail,
}
use audit_zoo_bug_byters.Ir.Storage.Handlers.{Handler, handle_unimplemented}
use audit_zoo_bug_byters.Ir.Storage.Dispatch.{
  name_of, unimplemented, named, handlers, handler_of, validated, route, handle_body, caught,
  handle_request,
}
use audit_zoo_bug_byters.Ir.Storage.Laws.{
  Safe, IsSafe, >>=-Safe, reads-Safe, pure-Safe, handle_query-IsSafe, handle_get_graph_stats-IsSafe,
  handle_fetch_unit-IsSafe, handle_get_unit-IsSafe, handle_has_unit-IsSafe,
  handle_get_all_units_by_kind-IsSafe, handle_get_all_relations_by_kind-IsSafe,
  handle_get_related_units-IsSafe, read_handlers-IsSafe, cache_handlers-IsSafe,
}

module _ {G S : Type 0} (nx : MultiDiGraph G) (laws : IsMultiDiGraph nx) (backend : Backend S)
    (honest : FindsById backend) (preload : Preload) where
  -- What a handler found by its name does.
  abbrev AnySafe : Option (Handler nx backend preload) → Type 0
  AnySafe none = Unit
  AnySafe (some handler) = IsSafe nx laws backend honest preload handler

  abbrev AllSafe : List (Text × Handler nx backend preload) → Type 0
  AllSafe [] = Unit
  AllSafe ((n, handler) ∷ rest) = IsSafe nx laws backend honest preload handler × AllSafe rest

  named-IsSafe :
      (hs : List (Text × Handler nx backend preload))
      → AllSafe hs
      → (name : Text) → AnySafe (named hs name)
  unfolding named
  named-IsSafe [] h name = tt
  named-IsSafe ((n, handler) ∷ rest) h name = elim (Bool-cases (text_eq n name)) [
    | inl this ↦ rw this h.0
    | inr other ↦ rw other (named-IsSafe rest h.1 name)
  ]

  handlers-AllSafe : AllSafe (handlers nx backend preload)
  handlers-AllSafe =
      let (all_units, all_relations) = read_handlers-IsSafe nx laws backend honest preload in
      let (load, preloading, sync, reloading, clean) =
        cache_handlers-IsSafe nx laws backend honest preload in
      (
        handle_query-IsSafe nx laws backend honest preload,
        (
          handle_fetch_unit-IsSafe nx laws backend honest preload,
          (
            handle_get_unit-IsSafe nx laws backend honest preload,
            (
              handle_has_unit-IsSafe nx laws backend honest preload,
              (
                handle_get_all_units_by_kind-IsSafe nx laws backend honest preload,
                (
                  all_units,
                  (
                    handle_get_all_relations_by_kind-IsSafe nx laws backend honest preload,
                    (
                      handle_get_related_units-IsSafe nx laws backend honest preload,
                      (
                        all_relations,
                        (
                          load,
                          (
                            preloading,
                            (
                              sync,
                              (
                                handle_get_graph_stats-IsSafe nx laws backend honest preload,
                                (reloading, (clean, ((λ p. record { at = λ w h. h }), tt))),
                              ),
                            ),
                          ),
                        ),
                      ),
                    ),
                  ),
                ),
              ),
            ),
          ),
        ),
      )

  handler_of-IsSafe : (name : Text) → AnySafe (handler_of nx backend preload name)
  unfolding handler_of handle_unimplemented
  handler_of-IsSafe name = elim (Bool-cases (contains unimplemented name)) [
    | inl stub ↦ rw stub (λ p. record { at = λ w h. h })
    | inr real ↦ rw real (named-IsSafe (handlers nx backend preload) handlers-AllSafe name)
  ]

  route-Safe :
      (o : Option (Handler nx backend preload))
      → AnySafe o
      → (p : Payload) → Safe nx laws backend honest preload (route nx backend preload o p)
  unfolding route
  route-Safe none h p = pure-Safe nx laws backend honest preload (response_fail unknown_request)
  route-Safe (some handler) h p = h p

  choose-Safe :
      (fits : Bool) (o : Option (Handler nx backend preload))
      → AnySafe o
      → (p : Payload)
      → Safe nx laws backend honest preload
          (if fits then route nx backend preload o p else pure (response_fail invalid_request))
  choose-Safe true o h p = route-Safe o h p
  choose-Safe false o h p = pure-Safe nx laws backend honest preload (response_fail invalid_request)

  handle_body-Safe :
      (validate : Text → Payload → Result Bool) (message : Request)
      → Safe nx laws backend honest preload (handle_body nx backend preload validate message)
  unfolding handle_body
  handle_body-Safe validate message =
      let name = name_of message in
      >>=-Safe nx laws backend honest preload
        (reads-Safe nx laws backend honest preload
          (λ _. validated nx backend preload validate name message.payload))
        λ fits.
          choose-Safe fits (handler_of nx backend preload name) (handler_of-IsSafe name)
            message.payload

  caught-view : (r : Result Response × World G S) → (caught nx backend preload r).1 ≡ r.1
  unfolding caught
  caught-view (ok a, w) = refl
  caught-view (raised e, w) = refl

  -- The agent leaves a well-formed view well-formed, whatever the request, and whether its response is a success or a failure.
  pub handle_request-IsView :
      (validate : Text → Payload → Result Bool) (message : Request) (w : World G S)
      → IsView nx w.0
      → IsView nx (handle_request nx backend preload validate message w).1.0
  unfolding handle_request
  handle_request-IsView validate message w h =
      rw (caught-view (handle_body nx backend preload validate message w))
        ((handle_body-Safe validate message).at w h)

module _ {G S : Type 0} (nx : MultiDiGraph G) (backend : Backend S) (preload : Preload) where
  -- A response without success, and nothing changed.
  abbrev pub Refuses : World G S → Response × World G S → Type 0
  Refuses w r = (r.0.success ≡ false) × (r.1 ≡ w)

  -- A name that no handler does anything for.
  abbrev pub IsIdle : Text → Type 0
  IsIdle name =
      (contains unimplemented name ≡ true) ⊎ (named (handlers nx backend preload) name ≡ none)

  idle_route :
      (name : Text) (p : Payload) (w : World G S)
      → IsIdle name
      → Refuses w (
          caught nx backend preload
            (route nx backend preload (handler_of nx backend preload name) p w))
  unfolding handler_of route handle_unimplemented caught response_fail
  idle_route name p w (inl stub) = rw stub (refl, refl)
  idle_route name p w (inr unknown) = elim (Bool-cases (contains unimplemented name)) [
    | inl stub ↦ rw stub (refl, refl)
    | inr real ↦ rw (real, unknown) (refl, refl)
  ]

  idle_body :
      (name : Text) (p : Payload) (w : World G S) (r : Result Bool)
      → IsIdle name
      → Refuses w (
          caught nx backend preload (
            continue
              (λ fits.
                if fits
                then route nx backend preload (handler_of nx backend preload name) p
                else pure (response_fail invalid_request))
              (r, w)))
  unfolding caught response_fail
  idle_body name p w (ok true) idle = idle_route name p w idle
  idle_body name p w (ok false) idle = (refl, refl)
  idle_body name p w (raised e) idle = (refl, refl)

  unfit_body :
      (name : Text) (p : Payload) (w : World G S) (r : Result Bool)
      → r ≢ ok true
      → Refuses w (
          caught nx backend preload (
            continue
              (λ fits.
                if fits
                then route nx backend preload (handler_of nx backend preload name) p
                else pure (response_fail invalid_request))
              (r, w)))
  unfolding caught response_fail
  unfit_body name p w (ok true) unfit = absurd (unfit refl)
  unfit_body name p w (ok false) unfit = (refl, refl)
  unfit_body name p w (raised e) unfit = (refl, refl)

  -- A request whose payload does not fit, or that names a handler that is not implemented or not there, gets a failure, and neither the view nor the back end is changed.
  pub handle_request-Refuses :
      (validate : Text → Payload → Result Bool) (message : Request) (w : World G S)
      → (validated nx backend preload validate (name_of message) message.payload ≢ ok true)
        ⊎ IsIdle (name_of message)
      → Refuses w (handle_request nx backend preload validate message w)
  unfolding handle_request handle_body
  handle_request-Refuses validate message w (inl unfit) =
      let name = name_of message in
      unfit_body name message.payload w (validated nx backend preload validate name message.payload)
        unfit
  handle_request-Refuses validate message w (inr idle) =
      let name = name_of message in
      idle_body name message.payload w (validated nx backend preload validate name message.payload)
        idle
