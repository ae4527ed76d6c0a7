-- ===== src/Ir/View/Invariant/Relations.antt =====
-- The methods on relations keep the invariant.
use audit_zoo_bug_byters.Base.{
  ℕ, refl, Bool, Bool-cases, inl, inr, true, not, ◌&&◌, Option, none, some, List, [], ◌∷◌, ◌++◌,
  Text, contains, length,
}
use audit_zoo_bug_byters.Ir.Model.{CodeUnit, CodeUnitRelation}
use audit_zoo_bug_byters.Ir.Graph.{MultiDiGraph, IsMultiDiGraph, Edge}
use audit_zoo_bug_byters.Ir.Backend.{
  Backend, raised, ir_value_error, ◌>>=◌, ◌>>◌, Direction, incoming, outgoing,
}
use audit_zoo_bug_byters.Ir.View.{ask, unit_at, queried, RelationQuery}
use audit_zoo_bug_byters.Ir.View.Units.{update}
use audit_zoo_bug_byters.Ir.View.Relations.{
  put_edge, add_relation, add_related, edge_towards, check_size, load_from, load_relation_kind,
  mark_query, mark_relation_kind, load_related, get_directed, get_chosen, get_related_units,
  get_all_relations_by_kind, DirectionChoice, both, one, direction_of, related_of, edges_of,
  rows_of_kind,
}
use audit_zoo_bug_byters.Ir.View.Invariant.{Extends-refl, Keeps, >>=-Keeps}
use audit_zoo_bug_byters.Ir.View.Invariant.Units.{ask-Keeps, mark-Keeps, pure-Keeps, reads-Keeps}
use audit_zoo_bug_byters.Ir.View.Invariant.Checks.{
  FindsById, Extends-add_edge, need_unit-Keeps, need_both-Keeps,
}

module _ {G S : Type 0} (nx : MultiDiGraph G) (laws : IsMultiDiGraph nx) (backend : Backend S)
    (honest : FindsById backend) where
  pub add_relation-Keeps : (e : Edge) → Keeps nx (add_relation nx backend e)
  unfolding add_relation put_edge
  add_relation-Keeps e =
      need_both-Keeps nx laws backend honest e.source e.target true true (put_edge nx backend e)
        (Extends-add_edge nx laws backend e)

  pub add_related-Keeps :
      (i : Text) (d : Direction) (rs : List (CodeUnit × CodeUnitRelation))
      → Keeps nx (add_related nx backend i d rs)
  unfolding add_related
  add_related-Keeps i d [] = pure-Keeps nx laws backend tt
  add_related-Keeps i d ((t, r) ∷ rs) =
      >>=-Keeps nx (need_unit-Keeps nx laws backend honest t.id true) λ _.
        >>=-Keeps nx (add_relation-Keeps (edge_towards i d t.id r)) λ _. add_related-Keeps i d rs

  check_size-Keeps : (n : ℕ) → Keeps nx {S = S} (check_size nx backend n)
  unfolding check_size
  check_size-Keeps n = record { at = λ w. Extends-refl nx w.0 }

  load_from-Keeps :
      (n : ℕ) (kind : Text) (ids : List Text) → Keeps nx (load_from nx backend n kind ids)
  unfolding load_from
  load_from-Keeps n kind [] = check_size-Keeps n
  load_from-Keeps n kind (i ∷ ids) = >>=-Keeps nx (check_size-Keeps n) λ _.
      >>=-Keeps nx (reads-Keeps nx laws backend (λ w. unit_at nx w.0.graph i)) λ u.
        >>=-Keeps nx (ask-Keeps nx laws backend (backend.get_relations u kind outgoing))
          λ rs. >>=-Keeps nx (add_related-Keeps i outgoing rs) λ _. load_from-Keeps n kind ids

  load_all-Keeps :
      (n : ℕ) (ids : List Text) (kind : Text)
      → Keeps nx (load_from nx backend n kind ids >> update (mark_relation_kind kind))
  load_all-Keeps n ids kind =
      >>=-Keeps nx (load_from-Keeps n kind ids)
        λ _. mark-Keeps nx laws backend (mark_relation_kind kind) (λ _. refl) (λ _ _. refl)

  load_relation_kind-Keeps :
      (kind : Text) (b : Bool) → Keeps nx (load_relation_kind nx backend kind b)
  unfolding load_relation_kind
  load_relation_kind-Keeps kind b = record {
    at = λ w. elim (Bool-cases (b && not (contains w.0.loaded_relation_kinds kind))) [
      | inl new ↦
          rw new ((load_all-Keeps (length (nx.nodes w.0.graph)) (nx.nodes w.0.graph) kind).at w)
      | inr old ↦ rw old (Extends-refl nx w.0)
    ];
  }

  pub get_all_relations_by_kind-Keeps :
      (kind : Text) (b : Bool) → Keeps nx (get_all_relations_by_kind nx backend kind b)
  unfolding get_all_relations_by_kind
  get_all_relations_by_kind-Keeps kind b = >>=-Keeps nx (load_relation_kind-Keeps kind b) λ _.
      reads-Keeps nx laws backend (λ w. rows_of_kind nx backend w.0.graph kind (nx.edges w.0.graph))

  ask_related-Keeps :
      (u : CodeUnit) (kind : Text) (d : Direction) (q : RelationQuery)
      → Keeps nx (
          ask (backend.get_relations u kind d) >>= λ relations.
          add_related nx backend u.id d relations >> update (mark_query q))
  ask_related-Keeps u kind d q =
      >>=-Keeps nx (ask-Keeps nx laws backend (backend.get_relations u kind d)) λ relations.
        >>=-Keeps nx (add_related-Keeps u.id d relations)
          λ _. mark-Keeps nx laws backend (mark_query q) (λ _. refl) (λ _ _. refl)

  pub load_related-Keeps :
      (u : CodeUnit) (kind : Text) (d : Direction) (b : Bool)
      → Keeps nx (load_related nx backend u kind d b)
  unfolding load_related
  load_related-Keeps u kind d b = record {
    at = λ w.
        let q : RelationQuery = record { unit_id = u.id; direction = d; kind = kind } in
        elim (Bool-cases (
          b
          && not (contains w.0.loaded_relation_kinds kind)
          && not (queried w.0.loaded_relations q))) [
            | inl new ↦ rw new ((ask_related-Keeps u kind d q).at w)
            | inr old ↦ rw old (Extends-refl nx w.0)
          ];
  }

  get_directed-Keeps :
      (u : CodeUnit) (kind : Text) (b : Bool) (d : Direction)
      → Keeps nx (get_directed nx backend u kind b d)
  unfolding get_directed
  get_directed-Keeps u kind b d = >>=-Keeps nx (load_related-Keeps u kind d b) λ _.
      reads-Keeps nx laws backend
        (λ w. related_of nx backend w.0.graph d kind (edges_of nx backend w.0.graph d u.id))

  get_chosen-Keeps :
      (u : CodeUnit) (kind : Text) (b : Bool) (o : Option DirectionChoice)
      → Keeps nx (get_chosen nx backend u kind b o)
  unfolding get_chosen
  get_chosen-Keeps u kind b none = reads-Keeps nx laws backend (λ _. raised ir_value_error)
  get_chosen-Keeps u kind b (some (one d)) = get_directed-Keeps u kind b d
  get_chosen-Keeps u kind b (some both) =
      >>=-Keeps nx (need_unit-Keeps nx laws backend honest u.id b) λ _.
        >>=-Keeps nx (get_directed-Keeps u kind b outgoing) λ out_related.
          >>=-Keeps nx (need_unit-Keeps nx laws backend honest u.id b) λ _.
            >>=-Keeps nx (get_directed-Keeps u kind b incoming)
              λ in_related. pure-Keeps nx laws backend (out_related ++ in_related)

  pub get_related_units-Keeps :
      (u : CodeUnit) (kind direction : Text) (b : Bool)
      → Keeps nx (get_related_units nx backend u kind direction b)
  unfolding get_related_units
  get_related_units-Keeps u kind direction b =
      >>=-Keeps nx (need_unit-Keeps nx laws backend honest u.id b)
        λ _. get_chosen-Keeps u kind b (direction_of direction)
