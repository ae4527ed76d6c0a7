-- ===== src/Ir/Graph/Plain.antt =====
-- A multigraph by lists, which does what the documentation of networkx says: the names of nodes that
-- were added, the attributes of each, the last first, and the edges. The ends of an edge are nodes.
use audit_zoo_bug_byters.Base.{
  ◌≡◌, refl, sym, ap, ◌∙◌, Bool, Bool-cases, inl, inr, true, not, ◌||◌, ◌&&◌, Option, none, some,
  List, [], ◌∷◌, ◌++◌, Text, text_eq, contains, arith, if◌then◌else◌,
}
use audit_zoo_bug_byters.Base.Strings.Laws.{text_eq_sound, text_eq_refl, contains-append}
use audit_zoo_bug_byters.Ir.Model.{UnitFact}
use audit_zoo_bug_byters.Ir.Graph.{
  Attributes, Edge, same_edge, has, MultiDiGraph, IsMultiDiGraph, with_fact,
}
use audit_zoo_bug_byters.Ir.Graph.Edges.{same_edge_sound, same_edge_refl}

pub record Plain : Type 0 where
  pub added : List Text
  pub attached : List (Text × Attributes)
  pub joined : List Edge

abbrev pub ends : List Edge → List Text
ends [] = []
ends (e ∷ es) = e.source ∷ e.target ∷ ends es

unfoldable pub find : List (Text × Attributes) → Text → Option Attributes
find [] j = none
find ((i, a) ∷ rest) j = let later = find rest j in if text_eq i j then some a else later

unfoldable pub attach : Text → UnitFact → List (Text × Attributes) → List (Text × Attributes)
attach i fact [] = []
attach i fact ((k, a) ∷ rest) =
    (if text_eq k i then (k, record a { unit_facts = a.unit_facts ++ (fact ∷ []) }) else (k, a))
    ∷ attach i fact rest

unfoldable pub keep : (Edge → Bool) → List Edge → List Edge
keep p [] = []
keep p (e ∷ es) = let rest = keep p es in if p e then e ∷ rest else rest

-- Each text once.
unfoldable pub distinct : List Text → List Text
distinct [] = []
distinct (x ∷ xs) = let rest = distinct xs in if contains rest x then rest else x ∷ rest

unfoldable pub join : Edge → List Edge → List Edge
join e es = if has es e then es else e ∷ es

abbrev pub plain : MultiDiGraph Plain
plain = record {
  empty = record { added = []; attached = []; joined = [] };
  nodes = λ g. distinct (g.added ++ ends g.joined);
  attributes = λ g i. find g.attached i;
  edges = λ g. g.joined;
  out_edges = λ g i. keep (λ e. text_eq e.source i) g.joined;
  in_edges = λ g i. keep (λ e. text_eq e.target i) g.joined;
  add_node = λ i a g. record g { added = i ∷ g.added; attached = (i, a) ∷ g.attached };
  append_fact = λ i fact g. record g { attached = attach i fact g.attached };
  add_edge = λ e g. record g { joined = join e g.joined };
  remove_edge = λ e g. record g {
    added = ends g.joined ++ g.added;
    joined = keep (λ d. not (same_edge e d)) g.joined;
  };
}

has-keep : (p : Edge → Bool) (es : List Edge) (d : Edge) → has (keep p es) d ≡ (p d && has es d)
unfolding has keep
has-keep p [] d = ground arith
has-keep p (e ∷ es) d = elim (Bool-cases (same_edge e d)) [
  | inl same ↦
      let x = same_edge_sound e d same in rw x (ground (arith, same_edge_refl d, has-keep p es d))
  | inr apart ↦ elim (Bool-cases (p e)) [
    | inl holds ↦ rw (holds, apart) (has-keep p es d)
    | inr fails ↦ rw (fails, apart) (has-keep p es d)
  ]
]

find-attach :
    (i : Text) (fact : UnitFact) (l : List (Text × Attributes)) (j : Text)
    → find (attach i fact l) j ≡ (if text_eq i j then with_fact fact (find l j) else find l j)
unfolding find attach
find-attach i fact [] j = ground arith
find-attach i fact ((k, a) ∷ rest) j = elim (Bool-cases (text_eq k i)) [
  | inl same ↦
      let e = text_eq_sound k i same in rw (same, e) (ground (arith, find-attach i fact rest j))
  | inr apart ↦ rw apart (
      ground
        (arith, find-attach i fact rest j, text_eq_sound k j, text_eq_sound i j, text_eq_refl j))
]

ends-keep :
    (p : Edge → Bool) (es : List Edge) (j : Text)
    → (contains (ends es) j || contains (ends (keep p es)) j) ≡ contains (ends es) j
unfolding keep contains
ends-keep p [] j = refl
ends-keep p (e ∷ es) j = ground (arith, ends-keep p es j)

ends-has :
    (es : List Edge) (e : Edge)
    → has es e ≡ true
    → (contains (ends es) e.source ≡ true) × (contains (ends es) e.target ≡ true)
unfolding has contains
ends-has [] e h = cc
ends-has (d ∷ es) e h = elim (Bool-cases (same_edge d e)) [
  | inl same ↦
      let x = same_edge_sound d e same in
      rw (← x) (ground (arith, text_eq_refl d.source, text_eq_refl d.target))
  | inr apart ↦
      let (p, q) = ends-has es e (ground arith) in (rw p (ground arith), rw q (ground arith))
]

contains-add_edge :
    (xs ys : List Text) (a b j : Text)
    → contains (xs ++ (a ∷ b ∷ ys)) j ≡ (text_eq a j || text_eq b j || contains (xs ++ ys) j)
unfolding contains
contains-add_edge xs ys a b j = rw (contains-append, contains-append) (ground arith)

contains-remove_edge :
    (xs : List Text) (p : Edge → Bool) (es : List Edge) (j : Text)
    → contains ((ends es ++ xs) ++ ends (keep p es)) j ≡ contains (xs ++ ends es) j
contains-remove_edge xs p es j =
    rw (contains-append, contains-append, contains-append) (ground (arith, ends-keep p es j))

contains-more :
    (xs : List Text) (es : List Edge) (j : Text)
    → contains (ends es) j ≡ true
    → contains (xs ++ ends es) j ≡ true
contains-more xs es j h = rw (contains-append, h) (ground arith)

pub contains-distinct : (xs : List Text) (j : Text) → contains (distinct xs) j ≡ contains xs j
unfolding distinct contains
contains-distinct [] j = refl
contains-distinct (x ∷ xs) j = elim (Bool-cases (contains (distinct xs) x)) [
  | inl old ↦ rw old (elim (Bool-cases (text_eq x j)) [
    | inl same ↦
        let e = text_eq_sound x j same in rw same (ap (contains (distinct xs)) (sym e) ∙ old)
    | inr apart ↦ rw apart (contains-distinct xs j)
  ])
  | inr new ↦ rw new (ap (λ b. text_eq x j || b) (contains-distinct xs j))
]

has-join : (e : Edge) (es : List Edge) (d : Edge) → has (join e es) d ≡ (same_edge e d || has es d)
unfolding join has
has-join e es d = elim (Bool-cases (has es e)) [
  | inl old ↦ rw old (elim (Bool-cases (same_edge e d)) [
    | inl same ↦ let x = same_edge_sound e d same in rw same (ap (has es) (sym x) ∙ old)
    | inr apart ↦ rw apart refl
  ])
  | inr new ↦ rw new refl
]

already :
    (f h : Text → Bool) (a b j : Text)
    → h a ≡ true
    → h b ≡ true
    → (f j || h j) ≡ (text_eq a j || text_eq b j || (f j || h j))
already f h a b j p q = elim (Bool-cases (text_eq a j)) [
  | inl same ↦
      let e = text_eq_sound a j same in
      rw same (let x : h j ≡ true = ap h (sym e) ∙ p in ground arith)
  | inr other ↦ elim (Bool-cases (text_eq b j)) [
    | inl same ↦
        let e = text_eq_sound b j same in
        rw (other, same) (let x : h j ≡ true = ap h (sym e) ∙ q in ground arith)
    | inr apart ↦ rw (other, apart) refl
  ]
]

contains-join :
    (xs : List Text) (e : Edge) (es : List Edge) (j : Text)
    → contains (xs ++ ends (join e es)) j
      ≡ (text_eq e.source j || text_eq e.target j || contains (xs ++ ends es) j)
unfolding join
contains-join xs e es j = elim (Bool-cases (has es e)) [
  | inl old ↦
      let (p, q) = ends-has es e old in
      rw old
        (rw contains-append (already (contains xs) (contains (ends es)) e.source e.target j p q))
  | inr new ↦ rw new (contains-add_edge xs (ends es) e.source e.target j)
]

-- The lists do what is asked of a multigraph.
pub plain-IsMultiDiGraph : IsMultiDiGraph plain
unfolding find has contains distinct
plain-IsMultiDiGraph = record {
  nodes-empty = refl;
  edges-empty = refl;
  nodes-add_node = λ i a g j.
      contains-distinct (i ∷ (g.added ++ ends g.joined)) j
      ∙ ap (λ b. text_eq i j || b) (sym (contains-distinct (g.added ++ ends g.joined) j));
  attributes-add_node = λ i a g j. refl;
  edges-add_node = λ i a g. refl;
  nodes-append_fact = λ i fact g. refl;
  attributes-append_fact = λ i fact g j. find-attach i fact g.attached j;
  edges-append_fact = λ i fact g. refl;
  nodes-add_edge = λ e g j.
      contains-distinct (g.added ++ ends (join e g.joined)) j
      ∙ contains-join g.added e g.joined j
      ∙ ap (λ b. text_eq e.source j || text_eq e.target j || b)
          (sym (contains-distinct (g.added ++ ends g.joined) j));
  attributes-add_edge = λ e g j. refl;
  has-add_edge = λ e g d. has-join e g.joined d;
  nodes-remove_edge = λ e g j.
      contains-distinct
        ((ends g.joined ++ g.added) ++ ends (keep (λ d. not (same_edge e d)) g.joined)) j
      ∙ contains-remove_edge g.added (λ d. not (same_edge e d)) g.joined j
      ∙ sym (contains-distinct (g.added ++ ends g.joined) j);
  attributes-remove_edge = λ e g j. refl;
  has-remove_edge = λ e g d. has-keep (λ d. not (same_edge e d)) g.joined d;
  out_edges_lem = λ g i e. has-keep (λ d. text_eq d.source i) g.joined e;
  in_edges_lem = λ g i e. has-keep (λ d. text_eq d.target i) g.joined e;
  ends-nodes = λ g e h.
      let (p, q) = ends-has g.joined e h in
      (
        contains-distinct (g.added ++ ends g.joined) e.source
            ∙ contains-more g.added g.joined e.source p,
        contains-distinct (g.added ++ ends g.joined) e.target
            ∙ contains-more g.added g.joined e.target q,
      );
}
