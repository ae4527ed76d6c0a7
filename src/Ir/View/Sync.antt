-- ===== src/Ir/View/Sync.antt =====
-- What the sync writes to the back end, and what the cleanup leaves where the sync fails.
use audit_zoo_bug_byters.Base.{
  ◌≡◌, refl, sym, ap, ◌∙◌, ◌⊎◌, inl, inr, true, false, Option, none, some, List, [], ◌∷◌, ◌++◌,
  Text, map, All,
}
use audit_zoo_bug_byters.Ir.Model.{CodeUnit, UnitFact, RelationFact}
use audit_zoo_bug_byters.Ir.Graph.{MultiDiGraph, IsMultiDiGraph, Attributes}
use audit_zoo_bug_byters.Ir.Backend.{
  Backend, Exn, Result, ok, raised, Action, pure, gets, reads, continue, ◌>>=◌, ◌>>◌,
}
use audit_zoo_bug_byters.Ir.View.{View, World, in_graph, unit_at, ask, new_view}
use audit_zoo_bug_byters.Ir.View.Units.{update}
use audit_zoo_bug_byters.Ir.View.Cache.{
  set_unit_tags, store_unit_facts, store_facts_of, store_relation_facts, sync_backend, cleanup,
}
use audit_zoo_bug_byters.Ir.View.Invariant.{IsView, IsAttributed}
use audit_zoo_bug_byters.Ir.View.Reads.{nodes_in}
use audit_zoo_bug_byters.Ir.View.Recall.{get_unit_facts-node}

-- A tag that is written.
pub data Tag : Type 0 where
  unit_tag : CodeUnit → UnitFact → Tag
  relation_tag : RelationFact → Tag

module _ {G : Type 0} (nx : MultiDiGraph G) where
  abbrev pub tags_of : Option Attributes → List Tag
  tags_of none = []
  tags_of (some a) = map (unit_tag a.unit) a.unit_facts

  abbrev pub unit_tags : G → List Text → List Tag
  unit_tags g [] = []
  unit_tags g (i ∷ ids) = tags_of (nx.attributes g i) ++ unit_tags g ids

  -- Every fact of every unit in the order of the nodes, and then the facts on relations.
  abbrev pub all_tags : View G → List Tag
  all_tags v = unit_tags v.graph (nx.nodes v.graph) ++ map relation_tag v.relation_facts

module _ {S : Type 0} (backend : Backend S) where
  abbrev pub write : Tag → Action S (Unit {0})
  write (unit_tag u fact) = backend.set_unit_tag u fact
  write (relation_tag fact) = backend.set_relation_tag fact

  -- The tags one after another, up to the first that the back end refuses.
  abbrev pub send : List Tag → Action S (Unit {0})
  send [] = pure tt
  send (t ∷ ts) = write t >> send ts

-- What the back end answered, with the view.
abbrev with_view : {G S A : Type 0} → View G → Result A × S → Result A × World G S
with_view v (r, s) = (r, (v, s))

-- A call of the back end, and behind it one that is as a second call of the back end.
ask_then :
    {G S : Type 0} (v : View G) (m : Action S (Unit {0})) (k : Action (World G S) (Unit {0}))
    → ((w : World G S) → k w ≡ ask m w)
    → (r : Result (Unit {0}) × S)
    → continue (λ _. k) (with_view v r) ≡ with_view v (continue (λ _. m) r)
ask_then v m k h (ok a, s) = h (v, s)
ask_then v m k h (raised e, s) = refl

continue_same :
    {G S : Type 0} (v : View G) (k l : Action (World G S) (Unit {0}))
    → ((s : S) → k (v, s) ≡ l (v, s))
    → (r : Result (Unit {0}) × S)
    → continue (λ _. k) (with_view v r) ≡ continue (λ _. l) (with_view v r)
continue_same v k l h (ok a, s) = h s
continue_same v k l h (raised e, s) = refl

ask_more :
    {G S : Type 0} (v : View G) (m n : Action S (Unit {0})) (k : Action (World G S) (Unit {0}))
    → ((w : World G S) → ask n w ≡ continue (λ _. k) (ask m w))
    → (r : Result (Unit {0}) × S)
    → with_view v (continue (λ _. n) r) ≡ continue (λ _. k) (with_view v (continue (λ _. m) r))
ask_more v m n k h (ok a, s) = h (v, s)
ask_more v m n k h (raised e, s) = refl

module _ {G S : Type 0} (nx : MultiDiGraph G) (laws : IsMultiDiGraph nx) (backend : Backend S) where
  set_unit_tags-send :
      (u : CodeUnit) (facts : List UnitFact) (w : World G S)
      → set_unit_tags nx backend u facts w ≡ ask (send backend (map (unit_tag u) facts)) w
  unfolding set_unit_tags
  set_unit_tags-send u [] w = refl
  set_unit_tags-send u (fact ∷ facts) (v, s) =
      ask_then v (send backend (map (unit_tag u) facts)) (set_unit_tags nx backend u facts)
        (set_unit_tags-send u facts) (backend.set_unit_tag u fact s)

  store_relation_facts-send :
      (facts : List RelationFact) (w : World G S)
      → store_relation_facts nx backend facts w ≡ ask (send backend (map relation_tag facts)) w
  unfolding store_relation_facts
  store_relation_facts-send [] w = refl
  store_relation_facts-send (fact ∷ facts) (v, s) =
      ask_then v (send backend (map relation_tag facts)) (store_relation_facts nx backend facts)
        (store_relation_facts-send facts) (backend.set_relation_tag fact s)

  send-append :
      (ts us : List Tag) (w : World G S)
      → ask (send backend (ts ++ us)) w
        ≡ continue (λ _. ask (send backend us)) (ask (send backend ts) w)
  send-append [] us w = refl
  send-append (t ∷ ts) us (v, s) =
      ask_more v (send backend ts) (send backend (ts ++ us)) (ask (send backend us))
        (send-append ts us) (write backend t s)

  store_unit_facts-send :
      (a : Attributes) (w : World G S)
      → in_graph nx w.0.graph a.unit.id ≡ true
      → nx.attributes w.0.graph a.unit.id ≡ some a
      → store_unit_facts nx backend a.unit w
        ≡ ask (send backend (map (unit_tag a.unit) a.unit_facts)) w
  unfolding store_unit_facts
  store_unit_facts-send a w h e =
      rw (get_unit_facts-node nx laws backend a.unit false w a h e)
        (set_unit_tags-send a.unit a.unit_facts w)

  store_node :
      (i : Text) (k : Action (World G S) (Unit {0})) (w : World G S)
      → IsAttributed nx w.0 i
      → in_graph nx w.0.graph i ≡ true
      → (do unit ← reads (λ u. unit_at nx u.0.graph i); store_unit_facts nx backend unit; k) w
        ≡ continue (λ _. k) (ask (send backend (tags_of nx (nx.attributes w.0.graph i))) w)
  unfolding unit_at
  store_node i k w a h =
      rw
        (
          unit_at,
          a.found,
          store_unit_facts-send a.attributes w (ap (in_graph nx w.0.graph) a.named ∙ h)
              (ap (nx.attributes w.0.graph) a.named ∙ a.found),
        )
        refl

  store_facts_of-send :
      (ids : List Text) (w : World G S)
      → IsView nx w.0
      → All (λ i. in_graph nx w.0.graph i ≡ true) ids
      → store_facts_of nx backend ids w ≡ ask (send backend (unit_tags nx w.0.graph ids)) w
  unfolding store_facts_of
  store_facts_of-send [] w valid h = refl
  store_facts_of-send (i ∷ ids) (v, s) valid h =
      let tags = tags_of nx (nx.attributes v.graph i) in
      store_node i (store_facts_of nx backend ids) (v, s) (valid.attributed i h.0) h.0
      ∙ continue_same v (store_facts_of nx backend ids)
          (ask (send backend (unit_tags nx v.graph ids)))
          (λ s'. store_facts_of-send ids (v, s') valid h.1) (send backend tags s)
      ∙ sym (send-append tags (unit_tags nx v.graph ids) (v, s))

  -- `sync_backend` of a well-formed view calls the back end with every fact of every unit, in the order of the nodes, and then with every fact on relations, up to the first that the back end refuses, and leaves the view as it is.
  pub sync_backend-send :
      (w : World G S)
      → IsView nx w.0
      → sync_backend nx backend w ≡ ask (send backend (all_tags nx w.0)) w
  unfolding sync_backend
  sync_backend-send (v, s) valid =
      let units = unit_tags nx v.graph (nx.nodes v.graph) in
      rw
        (store_facts_of-send (nx.nodes v.graph) (v, s) valid
          (nodes_in (nx.nodes v.graph) (nx.nodes v.graph) (λ i h. h)))
        (continue_same v
            (do facts ← gets (λ w. w.0.relation_facts); store_relation_facts nx backend facts)
            (ask (send backend (map relation_tag v.relation_facts)))
            (λ s'. store_relation_facts-send v.relation_facts (v, s')) (send backend units s)
          ∙ sym (send-append units (map relation_tag v.relation_facts) (v, s)))

  cleaned :
      (v : View G) (r : Result (Unit {0}) × S)
      → let (x, w) = continue (λ _. update (λ v. new_view nx)) (with_view v r) in
        ((x ≡ ok tt) × (w.0 ≡ new_view nx)) ⊎ ((e : Exn) × (x ≡ raised e) × (w.0 ≡ v))
  cleaned v (ok _, s) = inl (refl, refl)
  cleaned v (raised e, s) = inr (e, refl, refl)

  -- `cleanup` of a well-formed view with a sync either returns, and the view is as a new one, or raises what the back end raised, and the view, with its facts, is as it was.
  pub cleanup-keeps_facts :
      (w : World G S)
      → IsView nx w.0
      → let (x, u) = cleanup nx backend true w in
        ((x ≡ ok tt) × (u.0 ≡ new_view nx)) ⊎ ((e : Exn) × (x ≡ raised e) × (u.0 ≡ w.0))
  unfolding cleanup
  cleanup-keeps_facts (v, s) valid =
      rw (sync_backend-send (v, s) valid) (cleaned v (send backend (all_tags nx v) s))
