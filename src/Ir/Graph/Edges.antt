-- ===== src/Ir/Graph/Edges.antt =====
-- Equal edges.
use audit_zoo_bug_byters.Base.{◌≡◌, true, arith}
use audit_zoo_bug_byters.Base.Strings.Laws.{text_eq_sound, text_eq_refl}
use audit_zoo_bug_byters.Ir.Graph.{Edge, same_edge}

pub same_edge_refl : (e : Edge) → same_edge e e ≡ true
unfolding same_edge
same_edge_refl e = ground (
  arith,
  text_eq_refl e.source,
  text_eq_refl e.target,
  text_eq_refl e.key.kind,
  text_eq_refl e.key.metadata,
)

pub same_edge_sound : (e d : Edge) → same_edge e d ≡ true → e ≡ d
unfolding same_edge
same_edge_sound e d h = ground (
  arith,
  text_eq_sound e.source d.source,
  text_eq_sound e.target d.target,
  text_eq_sound e.key.kind d.key.kind,
  text_eq_sound e.key.metadata d.key.metadata,
)
