-- ===== src/Ir/View/Limits.antt =====
-- Where the methods raise though an answer is there: a search from a unit without edges, and the
-- listing of relations when a unit is added meanwhile.
use mathlib.Core.Path.{subst}
use audit_zoo_bug_byters.Base.{
  ℕ, ◌==◌, ◌≡◌, refl, ◌∙◌, Bool, Bool-cases, inl, inr, true, false, ◌||◌, Option, none, some, List,
  [], ◌∷◌, Text, text_eq, is_empty, contains, arith, All, length, if◌then◌else◌,
}
use audit_zoo_bug_byters.Ir.Model.{CodeUnit, CodeUnitRelation}
use audit_zoo_bug_byters.Ir.Graph.{MultiDiGraph, IsMultiDiGraph, Edge, has}
use audit_zoo_bug_byters.Ir.Backend.{
  Backend, Result, ok, raised, networkx_error, outgoing, Action, reads, ◌>>=◌, ◌>>◌,
}
use audit_zoo_bug_byters.Ir.View.{View, World, in_graph, unit_at, ask}
use audit_zoo_bug_byters.Ir.View.Units.{update}
use audit_zoo_bug_byters.Ir.View.Relations.{
  RelationRow, add_related, check_size, load_from, load_relation_kind, mark_relation_kind,
  get_all_relations_by_kind, rows_of_kind,
}
use audit_zoo_bug_byters.Ir.View.Queries.{
  Algorithms, IsAlgorithms, EdgeFilter, touches, kept_edges, filter_graph, reached,
  or_networkx_error, get_reachable_units,
}
use audit_zoo_bug_byters.Ir.View.Invariant.{IsView, Returns, continue-Returns}
use audit_zoo_bug_byters.Ir.View.Reads.{unit_at-node, members_edges}
use audit_zoo_bug_byters.Ir.View.Related.{Returns_any}

untouched :
    (f : Bool) (e : Edge) (kept : List Edge) (i : Text)
    → (text_eq e.source i || text_eq e.target i) ≡ false
    → touches kept i ≡ false
    → touches (if f then e ∷ kept else kept) i ≡ false
untouched f e kept i h k = ground arith

parts : (a b c : Bool) → (a || b || c) ≡ false → ((a || b) ≡ false) × (c ≡ false)
parts a b c h = ground arith

module _ {G S : Type 0} (nx : MultiDiGraph G) (laws : IsMultiDiGraph nx) (backend : Backend S) where
  module _ (alg : Algorithms G) (alg_laws : IsAlgorithms nx alg) where
    -- The edges that a filter keeps do not touch what no edge touches.
    kept_edges-untouched :
        (v : View G)
        → IsView nx v
        → (filter : EdgeFilter) (i : Text) (es : List Edge)
        → All (λ e. has (nx.edges v.graph) e ≡ true) es
        → touches es i ≡ false
        → (kept : List Edge) × (kept_edges nx alg filter v.graph es ≡ ok kept)
          × (touches kept i ≡ false)
    unfolding kept_edges
    kept_edges-untouched v valid filter i [] h t = ([], refl, refl)
    kept_edges-untouched v valid filter i (e ∷ es) h t =
        let (p, q) = laws.ends-nodes v.graph e h.0 in
        let (a, ea, _) = unit_at-node nx laws backend v valid e.source p in
        let (b, eb, _) = unit_at-node nx laws backend v valid e.target q in
        let (here, there) = parts (text_eq e.source i) (text_eq e.target i) (touches es i) t in
        let (kept, k, n) = kept_edges-untouched v valid filter i es h.1 there in
        (
          if filter a b e.key then e ∷ kept else kept,
          rw (ea, eb, k) refl,
          untouched (filter a b e.key) e kept i here n,
        )

    reached_missing :
        (g : G) (i : Text) (depth : Option ℕ)
        → in_graph nx g i ≡ false
        → reached nx alg g i depth ≡ raised networkx_error
    unfolding reached or_networkx_error
    reached_missing g i none h = rw (alg_laws.descendants_missing g i h) refl
    reached_missing g i (some n) h = rw (alg_laws.within_missing g i n h) refl

    -- `get_reachable_units` raises for a unit of a well-formed view that no edge begins or ends at, where the set of the units that are reached is empty.
    pub get_reachable_units-isolated :
        (u : CodeUnit) (filter : EdgeFilter) (max_depth : Option ℕ) (v : View G)
        → IsView nx v
        → is_empty u.id ≡ false
        → in_graph nx v.graph u.id ≡ true
        → touches (nx.edges v.graph) u.id ≡ false
        → get_reachable_units nx alg u filter max_depth v ≡ raised networkx_error
    unfolding get_reachable_units filter_graph
    get_reachable_units-isolated u filter max_depth v valid named here alone =
        let es = nx.edges v.graph in
        let (kept, k, n) =
          kept_edges-untouched v valid filter u.id es (members_edges es es (λ e h. h)) alone in
        let sub = alg.edge_subgraph v.graph kept in
        rw
          (
            named,
            here,
            k,
            reached_missing sub u.id max_depth (alg_laws.nodes-edge_subgraph v.graph kept u.id ∙ n),
          )
          refl

  last :
      {A B : Type 0} (P : B → View G → Type 0) (m : Action (World G S) A)
      (f : A → Action (World G S) B)
      → ((a : A) (u : World G S) → Returns P (f a u))
      → (w : World G S) → Returns P ((m >>= f) w)
  last P m f h w = continue-Returns (λ _ _. Unit {0}) P f (m w) (Returns_any (m w)) (λ a u _. h a u)

  -- The number of the nodes is as it was.
  abbrev Sized : {A : Type 0} → ℕ → A → View G → Type 0
  Sized n _ v = length (nx.nodes v.graph) ≡ n

  check_size-Sized :
      (n : ℕ) (w : World G S) → Returns (Sized {A = Unit {0}} n) (check_size nx backend n w)
  unfolding check_size
  check_size-Sized n w = elim (Bool-cases (length (nx.nodes w.0.graph) == n)) [
    | inl same ↦ rw same (ground arith)
    | inr other ↦ rw other tt
  ]

  load_from-Sized :
      (n : ℕ) (kind : Text) (ids : List Text) (w : World G S)
      → Returns (Sized {A = Unit {0}} n) (load_from nx backend n kind ids w)
  unfolding load_from
  load_from-Sized n kind [] w = check_size-Sized n w
  load_from-Sized n kind (i ∷ ids) w =
      let rest : Action (World G S) (Unit {0}) = load_from nx backend n kind ids in
      let link : List (CodeUnit × CodeUnitRelation) → Action (World G S) (Unit {0}) =
        λ rs. add_related nx backend i outgoing rs >> rest in
      let load : CodeUnit → Action (World G S) (Unit {0}) =
        λ u. ask (backend.get_relations u kind outgoing) >>= link in
      last (Sized n) (check_size nx backend n) (λ _. reads (λ x. unit_at nx x.0.graph i) >>= load)
        (λ _. last (Sized n) (reads (λ x. unit_at nx x.0.graph i)) load (λ u.
          last (Sized n) (ask (backend.get_relations u kind outgoing)) link (λ rs.
            last (Sized n) (add_related nx backend i outgoing rs) (λ _. rest)
              (λ _. load_from-Sized n kind ids))))
        w

  load_relation_kind-Sized :
      (kind : Text) (w : World G S)
      → contains w.0.loaded_relation_kinds kind ≡ false
      → Returns
          (Sized {A = Unit {0}} (length (nx.nodes w.0.graph)))
          (load_relation_kind nx backend kind true w)
  unfolding load_relation_kind
  load_relation_kind-Sized kind w new =
      let n = length (nx.nodes w.0.graph) in
      rw new (
        continue-Returns (Sized {A = Unit {0}} n) (Sized {A = Unit {0}} n)
          (λ _. update (mark_relation_kind kind))
          (load_from nx backend n kind (nx.nodes w.0.graph) w)
          (load_from-Sized n kind (nx.nodes w.0.graph) w) (λ _ u h. h))

  read-Sized :
      (n : ℕ) (f : View G → Result (List RelationRow)) (u : World G S)
      → Sized {A = Unit {0}} n tt u.0
      → (r : Result (List RelationRow)) → f u.0 ≡ r
      → Returns (Sized {A = List RelationRow} n) (r, u)
  read-Sized n f u h (ok rows) e = h
  read-Sized n f u h (raised x) e = tt

  -- `get_all_relations_by_kind`, where it loads the relations of a kind, returns only if no unit has been added to the view.
  pub get_all_relations_by_kind-Sized :
      (kind : Text) (w : World G S) (rows : List RelationRow) (w' : World G S)
      → contains w.0.loaded_relation_kinds kind ≡ false
      → get_all_relations_by_kind nx backend kind true w ≡ (ok rows, w')
      → length (nx.nodes w'.0.graph) ≡ length (nx.nodes w.0.graph)
  unfolding get_all_relations_by_kind
  get_all_relations_by_kind-Sized kind w rows w' new done =
      let n = length (nx.nodes w.0.graph) in
      let f : View G → Result (List RelationRow) =
        λ v. rows_of_kind nx backend v.graph kind (nx.edges v.graph) in
      subst (Returns (Sized n)) done (
        continue-Returns (Sized {A = Unit {0}} n) (Sized n) (λ _. reads (λ u. f u.0))
          (load_relation_kind nx backend kind true w) (load_relation_kind-Sized kind w new)
          (λ _ u h. read-Sized n f u h (f u.0) refl))
