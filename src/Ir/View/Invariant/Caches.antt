-- ===== src/Ir/View/Invariant/Caches.antt =====
-- The preload, the sync, the reload and the cleanup, and the views that calls of the methods reach.
use audit_zoo_bug_byters.Base.{
  ◌≡◌, sym, ap, ◌∙◌, Bool, Bool-cases, inl, inr, true, false, Option, none, List, [], ◌∷◌, Text,
  contains,
}
use audit_zoo_bug_byters.Ir.Model.{CodeLocation, CodeUnit, UnitFact, RelationFact}
use audit_zoo_bug_byters.Ir.Graph.{MultiDiGraph, IsMultiDiGraph}
use audit_zoo_bug_byters.Ir.Backend.{Backend, Result, ok, raised, continue}
use audit_zoo_bug_byters.Ir.View.{View, World, unit_at, new_view, index_ids}
use audit_zoo_bug_byters.Ir.View.Units.{update, get_unit, fetch_unit, get_all_units_by_kind}
use audit_zoo_bug_byters.Ir.View.Relations.{get_related_units, get_all_relations_by_kind}
use audit_zoo_bug_byters.Ir.View.FactStore.{
  add_unit_fact, add_relation_fact, get_unit_facts, load_facts,
}
use audit_zoo_bug_byters.Ir.View.Cache.{
  Preload, is_set, preload_calls, preload_facts, preload_from_backend, set_unit_tags,
  store_unit_facts, store_facts_of, store_relation_facts, sync_backend, reload, cleanup,
}
use audit_zoo_bug_byters.Ir.View.Invariant.{IsView, Keeps, >>=-Keeps}
use audit_zoo_bug_byters.Ir.View.Invariant.Units.{
  ask-Keeps, pure-Keeps, reads-Keeps, get_unit-Keeps, fetch_unit-Keeps, get_all_units_by_kind-Keeps,
}
use audit_zoo_bug_byters.Ir.View.Invariant.Checks.{FindsById}
use audit_zoo_bug_byters.Ir.View.Invariant.Relations.{
  get_all_relations_by_kind-Keeps, get_related_units-Keeps,
}
use audit_zoo_bug_byters.Ir.View.Invariant.Facts.{
  add_unit_fact-Keeps, add_relation_fact-Keeps, get_unit_facts-Keeps, load_facts-Keeps,
}

-- The calls of a view.
pub data Call : Type 0 where
  fetching : CodeLocation → Call
  getting : Text → Bool → Call
  listing : Text → Bool → Call
  relating : Text → Bool → Call
  following : CodeUnit → Text → Text → Bool → Call
  attaching : CodeUnit → UnitFact → Bool → Call
  linking : RelationFact → Bool → Call
  recalling : CodeUnit → Option (UnitFact → Bool) → Bool → Call
  loading : Call
  preloading : Preload → Call
  syncing : Call
  reloading : Preload → Call
  cleaning : Bool → Call

module _ {G S : Type 0} (nx : MultiDiGraph G) (backend : Backend S) where
  -- The view and the back end after a call, which may have raised.
  unfoldable pub perform : Call → World G S → World G S
  unfolding fetch_unit get_unit get_all_units_by_kind get_all_relations_by_kind get_related_units
      add_unit_fact add_relation_fact get_unit_facts load_facts preload_from_backend sync_backend
      reload cleanup
  perform (fetching l) w = (fetch_unit nx backend l w).1
  perform (getting i b) w = (get_unit nx backend i b w).1
  perform (listing kind b) w = (get_all_units_by_kind nx backend kind b w).1
  perform (relating kind b) w = (get_all_relations_by_kind nx backend kind b w).1
  perform (following u kind d b) w = (get_related_units nx backend u kind d b w).1
  perform (attaching u fact b) w = (add_unit_fact nx backend u fact b w).1
  perform (linking fact b) w = (add_relation_fact nx backend fact b w).1
  perform (recalling u c b) w = (get_unit_facts nx backend u c b w).1
  perform loading w = (load_facts nx backend w).1
  perform (preloading p) w = (preload_from_backend nx backend p w).1
  perform syncing w = (sync_backend nx backend w).1
  perform (reloading p) w = (reload nx backend p w).1
  perform (cleaning b) w = (cleanup nx backend b w).1

  -- What a new view becomes by calls, while the back end may change by itself between them.
  pub data Reachable : World G S → Type 0 where
    created : (s : S) → Reachable (new_view nx, s)
    called :
        {w : World G S} (c : Call) (w' : World G S) → Reachable w → w' ≡ perform c w → Reachable w'
    changed : {v : View G} {s : S} (s' : S) → Reachable (v, s) → Reachable (v, s')

module _ {G S : Type 0} (nx : MultiDiGraph G) (laws : IsMultiDiGraph nx) (backend : Backend S) where
  absurd_node : {A : Type 0} (i : Text) → contains [] i ≡ true → A
  unfolding contains
  absurd_node i h = cc

  pub new_view-IsView : IsView nx (new_view nx)
  unfolding index_ids contains
  new_view-IsView = record {
    attributed = λ i h. absurd_node i (sym (ap (λ l. contains l i) laws.nodes-empty) ∙ h);
    indexed = λ k i h. cc;
  }

  module _ (honest : FindsById backend) where
    preload_calls-Keeps : (p : Preload) → Keeps nx (preload_calls nx backend p)
    unfolding preload_calls
    preload_calls-Keeps p = elim (Bool-cases (is_set p.skip_calls)) [
      | inl set ↦ rw set (pure-Keeps nx laws backend tt)
      | inr unset ↦ rw unset (
          >>=-Keeps nx (get_all_relations_by_kind-Keeps nx laws backend honest p.calls_kind true)
            λ _. pure-Keeps nx laws backend tt)
    ]

    preload_facts-Keeps : (p : Preload) → Keeps nx (preload_facts nx backend p)
    unfolding preload_facts
    preload_facts-Keeps p = elim (Bool-cases (is_set p.skip_facts)) [
      | inl set ↦ rw set (pure-Keeps nx laws backend tt)
      | inr unset ↦ rw unset (load_facts-Keeps nx laws backend honest)
    ]

    preload_from_backend-Keeps : (p : Preload) → Keeps nx (preload_from_backend nx backend p)
    unfolding preload_from_backend
    preload_from_backend-Keeps p =
        >>=-Keeps nx (get_all_units_by_kind-Keeps nx laws backend p.function_kind true) λ _.
          >>=-Keeps nx (get_all_units_by_kind-Keeps nx laws backend p.file_kind true)
            λ _. >>=-Keeps nx (preload_calls-Keeps p) λ _. preload_facts-Keeps p

    set_unit_tags-Keeps :
        (u : CodeUnit) (facts : List UnitFact) → Keeps nx (set_unit_tags nx backend u facts)
    unfolding set_unit_tags
    set_unit_tags-Keeps u [] = pure-Keeps nx laws backend tt
    set_unit_tags-Keeps u (fact ∷ facts) =
        >>=-Keeps nx (ask-Keeps nx laws backend (backend.set_unit_tag u fact))
          λ _. set_unit_tags-Keeps u facts

    store_facts_of-Keeps : (ids : List Text) → Keeps nx (store_facts_of nx backend ids)
    unfolding store_facts_of store_unit_facts
    store_facts_of-Keeps [] = pure-Keeps nx laws backend tt
    store_facts_of-Keeps (i ∷ ids) =
        >>=-Keeps nx (reads-Keeps nx laws backend (λ w. unit_at nx w.0.graph i)) λ u.
          >>=-Keeps nx
            (>>=-Keeps nx (get_unit_facts-Keeps nx laws backend honest u none false)
              (set_unit_tags-Keeps u))
            λ _. store_facts_of-Keeps ids

    store_relation_facts-Keeps :
        (facts : List RelationFact) → Keeps nx (store_relation_facts nx backend facts)
    unfolding store_relation_facts
    store_relation_facts-Keeps [] = pure-Keeps nx laws backend tt
    store_relation_facts-Keeps (fact ∷ facts) =
        >>=-Keeps nx (ask-Keeps nx laws backend (backend.set_relation_tag fact))
          λ _. store_relation_facts-Keeps facts

    sync_backend-Keeps : Keeps nx (sync_backend nx backend)
    unfolding sync_backend
    sync_backend-Keeps =
        >>=-Keeps nx (reads-Keeps nx laws backend (λ w. ok (nx.nodes w.0.graph))) λ ids.
          >>=-Keeps nx (store_facts_of-Keeps ids) λ _.
            >>=-Keeps nx (reads-Keeps nx laws backend (λ w. ok w.0.relation_facts))
              store_relation_facts-Keeps

    reload-IsView : (p : Preload) (w : World G S) → IsView nx (reload nx backend p w).1.0
    unfolding reload
    reload-IsView p w =
        ((>>=-Keeps nx (ask-Keeps nx laws backend backend.reload)
              λ _. preload_from_backend-Keeps p).at
            (new_view nx, w.1)).kept
          new_view-IsView

    emptied :
        (r : Result (Unit {0}) × World G S)
        → IsView nx r.1.0
        → IsView nx (continue (λ _. update (λ v. new_view nx)) r).1.0
    emptied (ok a, w) h = new_view-IsView
    emptied (raised e, w) h = h

    cleanup-IsView :
        (b : Bool) (w : World G S) → IsView nx w.0 → IsView nx (cleanup nx backend b w).1.0
    unfolding cleanup
    cleanup-IsView true w h = emptied (sync_backend nx backend w) ((sync_backend-Keeps.at w).kept h)
    cleanup-IsView false w h = new_view-IsView

    -- A call of a method of a well-formed view, whether it returns or raises, leaves a well-formed view.
    pub perform-IsView :
        (c : Call) (w : World G S) → IsView nx w.0 → IsView nx (perform nx backend c w).0
    unfolding perform
    perform-IsView (fetching l) w h = ((fetch_unit-Keeps nx laws backend l).at w).kept h
    perform-IsView (getting i b) w h = ((get_unit-Keeps nx laws backend i b).at w).kept h
    perform-IsView (listing kind b) w h =
        ((get_all_units_by_kind-Keeps nx laws backend kind b).at w).kept h
    perform-IsView (relating kind b) w h =
        ((get_all_relations_by_kind-Keeps nx laws backend honest kind b).at w).kept h
    perform-IsView (following u kind d b) w h =
        ((get_related_units-Keeps nx laws backend honest u kind d b).at w).kept h
    perform-IsView (attaching u fact b) w h =
        ((add_unit_fact-Keeps nx laws backend honest u fact b).at w).kept h
    perform-IsView (linking fact b) w h =
        ((add_relation_fact-Keeps nx laws backend honest fact b).at w).kept h
    perform-IsView (recalling u c b) w h =
        ((get_unit_facts-Keeps nx laws backend honest u c b).at w).kept h
    perform-IsView loading w h = ((load_facts-Keeps nx laws backend honest).at w).kept h
    perform-IsView (preloading p) w h = ((preload_from_backend-Keeps p).at w).kept h
    perform-IsView syncing w h = (sync_backend-Keeps.at w).kept h
    perform-IsView (reloading p) w h = reload-IsView p w
    perform-IsView (cleaning b) w h = cleanup-IsView b w h

    -- Every view that calls of the methods reach from a new view is well-formed, if the back end gives the unit that it is asked for.
    pub Reachable-IsView : (w : World G S) → Reachable nx backend w → IsView nx w.0
    Reachable-IsView w (created s) = new_view-IsView
    Reachable-IsView w' (called {w} c _ r e) = rw e (perform-IsView c w (Reachable-IsView w r))
    Reachable-IsView w (changed {v} {s} s' r) = Reachable-IsView (v, s) r
