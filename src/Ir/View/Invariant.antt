-- ===== src/Ir/View/Invariant.antt =====
-- The invariant of the view, and the calls that keep it.
pub mod Units
pub mod Checks
pub mod Relations
pub mod Facts
pub mod Caches
use audit_zoo_bug_byters.Base.{◌≡◌, refl, true, some, Text, contains}
use audit_zoo_bug_byters.Ir.Graph.{MultiDiGraph, Attributes}
use audit_zoo_bug_byters.Ir.Backend.{Result, ok, raised, Action, continue, ◌>>=◌}
use audit_zoo_bug_byters.Ir.View.{View, World, in_graph, index_ids}

module _ {G : Type 0} (nx : MultiDiGraph G) where
  -- A node with the attributes that the view gives, named by its unit and listed under its kind.
  pub record IsAttributed (v : View G) (i : Text) : Type 0 where
    pub attributes : Attributes
    pub found : nx.attributes v.graph i ≡ some attributes
    pub named : attributes.unit.id ≡ i
    pub listed : contains (index_ids v.type_index attributes.unit.kind) i ≡ true

  -- Every node has its attributes, and the index lists nodes alone.
  pub record IsView (v : View G) : Type 0 where
    pub attributed : (i : Text) → in_graph nx v.graph i ≡ true → IsAttributed v i
    pub indexed :
        (k i : Text) → contains (index_ids v.type_index k) i ≡ true → in_graph nx v.graph i ≡ true

  -- From one view to a later one: the invariant is kept and no node is lost.
  pub record Extends (v u : View G) : Type 0 where
    pub kept : IsView v → IsView u
    pub grown : (i : Text) → in_graph nx v.graph i ≡ true → in_graph nx u.graph i ≡ true

  pub Extends-refl : (v : View G) → Extends v v
  Extends-refl v = record { kept = λ h. h; grown = λ i h. h }

  pub Extends-trans : (u v w : View G) → Extends u v → Extends v w → Extends u w
  Extends-trans u v w p q = record {
    kept = λ h. q.kept (p.kept h);
    grown = λ i h. q.grown i (p.grown i h);
  }

  -- A change of the other fields alone.
  pub Extends-same_graph :
      (v u : View G)
      → u.graph ≡ v.graph
      → ((k : Text) → index_ids u.type_index k ≡ index_ids v.type_index k)
      → Extends v u
  Extends-same_graph v u g ids = record {
    kept = λ h. record {
      attributed = λ i p.
          let a = h.attributed i (rw (← g) p) in
          record {
            attributes = a.attributes;
            found = rw g a.found;
            named = a.named;
            listed = rw (ids a.attributes.unit.kind) a.listed;
          };
      indexed = λ k i p. rw g (h.indexed k i (rw (← ids k) p));
    };
    grown = λ i p. rw g p;
  }

  module _ {S : Type 0} where
    -- A call that keeps the invariant and the nodes, whether it returns or raises.
    pub record Keeps {A : Type 0} (m : Action (World G S) A) : Type 0 where
      pub at : (w : World G S) → Extends w.0 (m w).1.0

    continue-Extends :
        {A B : Type 0} (f : A → Action (World G S) B) (v : View G) (r : Result A × World G S)
        → Extends v r.1.0
        → ((a : A) → r.0 ≡ ok a → Extends r.1.0 (f a r.1).1.0)
        → Extends v (continue f r).1.0
    continue-Extends f v (ok a, w) h k = Extends-trans v w.0 (f a w).1.0 h (k a refl)
    continue-Extends f v (raised e, w) h k = h

    -- The second call may use what the first one found.
    pub >>=-Extends :
        {A B : Type 0} (m : Action (World G S) A) (f : A → Action (World G S) B) (w : World G S)
        → Extends w.0 (m w).1.0
        → ((a : A) → (m w).0 ≡ ok a → Extends (m w).1.0 (f a (m w).1).1.0)
        → Extends w.0 ((m >>= f) w).1.0
    >>=-Extends m f w h k = continue-Extends f w.0 (m w) h k

    pub >>=-Keeps :
        {A B : Type 0} {m : Action (World G S) A} {f : A → Action (World G S) B}
        → Keeps m
        → ((a : A) → Keeps (f a))
        → Keeps (m >>= f)
    >>=-Keeps {m} {f} hm hf = record {
      at = λ w. >>=-Extends m f w (hm.at w) (λ a _. (hf a).at (m w).1);
    }

-- What a call returns has a property together with the view after it. A call that raises is free.
abbrev pub Returns : {G S A : Type 0} → (A → View G → Type 0) → Result A × World G S → Type 0
Returns P (ok a, w) = P a w.0
Returns P (raised e, w) = Unit

pub continue-Returns :
    {G S A B : Type 0} (Q : A → View G → Type 0) (P : B → View G → Type 0)
    (f : A → Action (World G S) B) (r : Result A × World G S)
    → Returns Q r
    → ((a : A) (w : World G S) → Q a w.0 → Returns P (f a w))
    → Returns P (continue f r)
continue-Returns Q P f (ok a, w) h k = k a w h
continue-Returns Q P f (raised e, w) h k = tt

pub Returns-eq :
    {G S A : Type 0} (P : A → View G → Type 0) (r : Result A × World G S) (a : A)
    → Returns P r
    → r.0 ≡ ok a
    → P a r.1.0
Returns-eq P (ok b, w) a h e = let same : b ≡ a = cc in rw (← same) h
Returns-eq P (raised x, w) a h e = cc
