-- ===== src/Tests/Views.antt =====
-- A view over a small back end: two functions, of which the first calls the second, and a log of the
-- tags that were written.
use audit_zoo_bug_byters.Base.{
  ◌+◌, ℕ, zero, suc, ◌≡◌, refl, sym, arith, ◌∙◌, ◌⊎◌, inl, inr, pos, Bool-cases, true, false,
  Option, none, some, List, [], ◌∷◌, ◌++◌, Text, codes, text_eq, starts_with, contains, length, map,
  if◌then◌else◌,
}
use audit_zoo_bug_byters.Base.Strings.Laws.{text_eq_sound}
use audit_zoo_bug_byters.Ir.Model.{CodeLocation, CodeUnit, CodeUnitRelation, UnitFact}
use audit_zoo_bug_byters.Ir.Graph.{Edge, has, same_edge}
use audit_zoo_bug_byters.Ir.Graph.Plain.{
  Plain, plain, plain-IsMultiDiGraph, find, ends, distinct, join, contains-distinct,
}
use audit_zoo_bug_byters.Ir.Backend.{Backend, Exn, ok, raised, networkx_error, outgoing, pure}
use audit_zoo_bug_byters.Ir.View.{View, World, new_view, ask}
use audit_zoo_bug_byters.Ir.View.Units.{get_unit, get_all_units_by_kind}
use audit_zoo_bug_byters.Ir.View.Relations.{
  RelatedUnit, RelationRow, get_related_units, get_all_relations,
}
use audit_zoo_bug_byters.Ir.View.FactStore.{facts_at, get_unit_facts, add_unit_fact}
use audit_zoo_bug_byters.Ir.View.Cache.{sync_backend, cleanup}
use audit_zoo_bug_byters.Ir.View.Queries.{
  Algorithms, IsAlgorithms, touches, no_path, get_reachable_units,
}
use audit_zoo_bug_byters.Ir.View.Invariant.{IsView}
use audit_zoo_bug_byters.Ir.View.Invariant.Checks.{FindsById}
use audit_zoo_bug_byters.Ir.View.Invariant.Caches.{
  listing, relating, attaching, perform, Reachable, created, called, new_view-IsView,
  perform-IsView, Reachable-IsView,
}
use audit_zoo_bug_byters.Ir.View.Stats.{GraphStats, get_graph_stats}
use audit_zoo_bug_byters.Ir.View.Stats.Counts.{total, get_graph_stats-counts}
use audit_zoo_bug_byters.Ir.View.Reads.{twice, edge_of, get_all_relations-doubled}
use audit_zoo_bug_byters.Ir.View.Cached.{Repeats, get_unit-Repeats}
use audit_zoo_bug_byters.Ir.View.Sync.{send, all_tags, sync_backend-send, cleanup-keeps_facts}
use audit_zoo_bug_byters.Ir.View.Recall.{
  GainedFacts, get_unit_facts-add_unit_fact, get_all_units_by_kind-loses_facts,
}
use audit_zoo_bug_byters.Ir.View.Related.{direction_text}
use audit_zoo_bug_byters.Ir.View.Complete.{TellsOf}
use audit_zoo_bug_byters.Ir.View.Present.{get_related_units_complete}
use audit_zoo_bug_byters.Ir.View.Limits.{
  get_reachable_units-isolated, get_all_relations_by_kind-Sized,
}

abbrev lines : ℕ → ℕ → CodeLocation
lines a b = record {
  file_path = codes "a.py";
  line_start = pos a;
  line_end = pos b;
  column_start = some (pos 1);
}

abbrev unit_of : Text → CodeUnit
unit_of i = record {
  id = i;
  kind = codes "Function";
  code = [];
  name = i;
  location = lines 1 9;
  metadata = [];
}

abbrev pub first : CodeUnit
first = unit_of (codes "f")

abbrev pub second : CodeUnit
second = unit_of (codes "g")

abbrev calls : CodeUnitRelation
calls = record { kind = codes "Calls"; metadata = [] }

abbrev note : UnitFact
note = record { class_name = codes "SummaryFact"; kwargs = codes "{}" }

abbrev known : Text → Option CodeUnit
known i =
    if text_eq i (codes "f")
    then some first
    else if text_eq i (codes "g")
    then some second
    else none

abbrev related_to : CodeUnit → List (CodeUnit × CodeUnitRelation)
related_to u = if text_eq u.id (codes "f") then (second, calls) ∷ [] else []

abbrev pub toy : Backend (List UnitFact)
toy = record {
  query = λ q ty. pure q;
  get_relation_tags = pure [];
  get_unit_tags = λ u. pure [];
  set_unit_tag = λ u fact log. (ok tt, fact ∷ log);
  set_relation_tag = λ fact. pure tt;
  get_code_unit_by_location = λ l. pure none;
  get_code_unit = λ i. pure (known i);
  get_code_units = λ kind. pure (first ∷ second ∷ []);
  get_relations = λ u kind d. pure (related_to u);
  reload = pure tt;
}

pub toy-FindsById : FindsById toy
toy-FindsById i log = elim (Bool-cases (text_eq i (codes "f"))) [
  | inl f ↦ rw f (sym (text_eq_sound i (codes "f") f))
  | inr other ↦ elim (Bool-cases (text_eq i (codes "g"))) [
    | inl g ↦ rw (other, g) (sym (text_eq_sound i (codes "g") g))
    | inr unknown ↦ rw (other, unknown) tt
  ]
]

abbrev pub fresh : World Plain (List UnitFact)
fresh = (new_view plain, [])

abbrev pub started : World Plain (List UnitFact)
started = perform plain toy (listing (codes "Function") true) fresh

pub started-IsView : IsView plain started.0
started-IsView =
    perform-IsView plain plain-IsMultiDiGraph toy toy-FindsById (listing (codes "Function") true)
      fresh (new_view-IsView plain plain-IsMultiDiGraph toy)

started-Reachable : Reachable plain toy started
started-Reachable = called (listing (codes "Function") true) started (created []) refl

Reachable-IsView_example : IsView plain started.0
Reachable-IsView_example =
    Reachable-IsView plain plain-IsMultiDiGraph toy toy-FindsById started started-Reachable

get_related_units_complete_example :
    (rows : List RelatedUnit) × (w' : World Plain (List UnitFact)) × (get_related_units plain toy
        first
        (codes "Calls")
        (direction_text outgoing)
        true
        started
      ≡ (ok rows, w'))
    × TellsOf ((second, calls) ∷ []) (codes "Calls") rows
unfolding perform distinct
get_related_units_complete_example =
    get_related_units_complete plain plain-IsMultiDiGraph toy toy-FindsById first (codes "Calls")
      outgoing ((second, calls) ∷ []) started [] started-IsView refl refl refl refl (refl, tt)

abbrev noted : World Plain (List UnitFact)
noted = perform plain toy (attaching first note true) started

noted-IsView : IsView plain noted.0
noted-IsView =
    perform-IsView plain plain-IsMultiDiGraph toy toy-FindsById (attaching first note true) started
      started-IsView

sync_backend-send_example :
    sync_backend plain toy noted ≡ ask (send toy (all_tags plain noted.0)) noted
sync_backend-send_example = sync_backend-send plain plain-IsMultiDiGraph toy noted noted-IsView

cleanup-keeps_facts_example :
    let (x, u) = cleanup plain toy true noted in
    ((x ≡ ok tt) × (u.0 ≡ new_view plain)) ⊎ ((e : Exn) × (x ≡ raised e) × (u.0 ≡ noted.0))
cleanup-keeps_facts_example = cleanup-keeps_facts plain plain-IsMultiDiGraph toy noted noted-IsView

get_unit-Repeats_example :
    Repeats (get_unit plain toy (codes "f") false) (get_unit plain toy (codes "f") true fresh)
get_unit-Repeats_example =
    get_unit-Repeats plain plain-IsMultiDiGraph toy toy-FindsById (codes "f") false fresh

get_unit_facts-add_unit_fact_example :
    (facts : List UnitFact) × (v : View Plain) × (get_unit_facts plain toy first none true started
      ≡ (ok facts, started))
    × (add_unit_fact plain toy first note true started ≡ (ok tt, (v, started.1)))
    × (get_unit_facts plain toy first none true (v, started.1)
        ≡ (ok (facts ++ (note ∷ [])), (v, started.1)))
    × GainedFacts plain (codes "f") started.0 v
unfolding perform distinct
get_unit_facts-add_unit_fact_example =
    get_unit_facts-add_unit_fact plain plain-IsMultiDiGraph toy first note true started
      started-IsView refl

abbrev call_edge : Edge
call_edge = record { source = codes "f"; target = codes "g"; key = calls }

abbrev joined_graph : Plain
joined_graph = record { added = []; attached = []; joined = call_edge ∷ [] }

-- A unit that was fetched alone, with a fact.
abbrev alone : World Plain (List UnitFact)
alone = perform plain toy (attaching first note true) fresh

get_all_units_by_kind-loses_facts_example :
    facts_at plain toy
      (get_all_units_by_kind plain toy (codes "Function") true alone).1.0.graph
      (codes "f")
    ≡ ok []
unfolding perform contains starts_with find distinct join
get_all_units_by_kind-loses_facts_example =
    get_all_units_by_kind-loses_facts plain plain-IsMultiDiGraph toy (codes "Function") alone
      (first ∷ second ∷ []) [] (codes "f") refl refl refl

-- The call has been loaded.
abbrev linked : World Plain (List UnitFact)
linked = perform plain toy (relating (codes "Calls") true) started

linked-IsView : IsView plain linked.0
linked-IsView =
    perform-IsView plain plain-IsMultiDiGraph toy toy-FindsById (relating (codes "Calls") true)
      started started-IsView

get_all_relations-doubled_example :
    (rows : List RelationRow) × (get_all_relations plain toy linked.0 ≡ ok rows)
    × (map edge_of rows ≡ twice (plain.edges linked.0.graph))
get_all_relations-doubled_example =
    get_all_relations-doubled plain plain-IsMultiDiGraph toy linked.0 linked-IsView

get_all_relations_by_kind-Sized_example :
    length (plain.nodes linked.0.graph) ≡ length (plain.nodes started.0.graph)
unfolding perform contains has find starts_with same_edge text_eq distinct join
get_all_relations_by_kind-Sized_example =
    get_all_relations_by_kind-Sized plain plain-IsMultiDiGraph toy (codes "Calls") started
      (record { source_unit = first; target_unit = second; key = calls } ∷ []) linked refl refl

-- The nodes within a number of steps.
abbrev targets : List Edge → List Text → List Text
targets [] ids = []
targets (e ∷ es) ids =
    let rest = targets es ids in if contains ids e.source then e.target ∷ rest else rest

abbrev within : List Edge → Text → ℕ → List Text
within es i zero = i ∷ []
within es i (suc n) = let ids = within es i n in ids ++ targets es ids

abbrev if_node : Plain → Text → List Text → Option (List Text)
if_node g i ids = if contains (plain.nodes g) i then some ids else none

abbrev searches : Algorithms Plain
searches = record {
  edge_subgraph = λ g es. record g { added = []; joined = es };
  descendants = λ g i. if_node g i (within g.joined i (length g.joined));
  nodes_within = λ g i n. if_node g i (within g.joined i n);
  shortest_path = λ g i j. no_path;
}

ends-touches : (es : List Edge) (i : Text) → contains (ends es) i ≡ touches es i
unfolding contains
ends-touches [] i = refl
ends-touches (e ∷ es) i = ground (arith, ends-touches es i)

searches-IsAlgorithms : IsAlgorithms plain searches
searches-IsAlgorithms = record {
  nodes-edge_subgraph = λ g es i. contains-distinct (ends es) i ∙ ends-touches es i;
  descendants_missing = λ g i h. rw h refl;
  within_missing = λ g i n h. rw h refl;
}

get_reachable_units-isolated_example :
    get_reachable_units plain searches first (λ u v key. true) none started.0
    ≡ raised networkx_error
unfolding perform contains find distinct join
get_reachable_units-isolated_example =
    get_reachable_units-isolated plain plain-IsMultiDiGraph toy searches searches-IsAlgorithms first
      (λ u v key. true) none started.0 started-IsView refl refl refl

get_graph_stats-counts_example :
    (stats : GraphStats) × (get_graph_stats plain noted.0 ≡ ok stats)
    × (stats.num_unit_facts + stats.num_relation_facts ≡ length (all_tags plain noted.0))
    × (total stats.edges_by_kind ≡ stats.num_edges)
get_graph_stats-counts_example = get_graph_stats-counts plain noted.0 noted-IsView
