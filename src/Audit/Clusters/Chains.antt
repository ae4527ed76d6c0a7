-- ===== src/Audit/Clusters/Chains.antt =====
-- The clusters against a description of them: chains of lines with small steps, far from one another.
use mathlib.Core.List.{Perm}
use mathlib.Core.List.Perm
use audit_zoo_bug_byters.Base.{
  ℕ, ◌+◌, ◌-◌, ◌≤◌, ◌<◌, ◌≡◌, refl, ap, Option, List, [], ◌∷◌, ◌++◌, ℤ, leb, leb→le, Bool-cases,
  inl, inr, arith,
}
use audit_zoo_bug_byters.Audit.Clusters.{
  sanitize_lines, insert_line, sort_lines, group_lines, cluster_sorted, cluster_lines,
}

-- Every line is at most `gap` after the one before it; the first, after `from`.
abbrev pub IsChain : ℕ → ℕ → List ℕ → Type 0
IsChain gap from [] = Unit
IsChain gap from (n ∷ ns) = (from ≤ n) × (n ≤ from + gap) × IsChain gap n ns

abbrev pub last_of : ℕ → List ℕ → ℕ
last_of n [] = n
last_of n (m ∷ ms) = last_of m ms

-- The next line, if there is one, is more than `gap` after `from`.
abbrev pub IsFar : ℕ → ℕ → List ℕ → Type 0
IsFar gap from [] = Unit
IsFar gap from (n ∷ ns) = from + gap < n

-- The lines are cut into chains, each cluster is the first and the last line of its chain, and
-- after each chain the next line is far.
pub data IsClustering (gap : ℕ) : List ℕ → List (ℕ × ℕ) → Type 0 where
  no_lines : IsClustering gap [] []
  chain :
      (first : ℕ) (more rest : List ℕ) {lines : List ℕ} {clusters : List (ℕ × ℕ)}
      → IsChain gap first more
      → IsFar gap (last_of first more) rest
      → IsClustering gap rest clusters
      → lines ≡ first ∷ (more ++ rest)
      → IsClustering gap lines ((first, last_of first more) ∷ clusters)

abbrev pub IsSortedFrom : ℕ → List ℕ → Type 0
IsSortedFrom low [] = Unit
IsSortedFrom low (n ∷ ns) = (low ≤ n) × IsSortedFrom n ns

-- What the loop makes of the open cluster: its chain goes on, and then come the other chains.
record Grouped (gap start end : ℕ) (ns : List ℕ) (cs : List (ℕ × ℕ)) : Type 0 where
  more : List ℕ
  rest : List ℕ
  others : List (ℕ × ℕ)
  chained : IsChain gap end more
  far : IsFar gap (last_of end more) rest
  clustered : IsClustering gap rest others
  lines : ns ≡ more ++ rest
  head : cs ≡ (start, last_of end more) ∷ others

group_lines-Grouped :
    (gap start end : ℕ) (ns : List ℕ)
    → IsSortedFrom end ns
    → Grouped gap start end ns (group_lines gap start end ns)
unfolding group_lines
group_lines-Grouped gap start end [] h = record {
  more = [];
  rest = [];
  others = [];
  chained = tt;
  far = tt;
  clustered = no_lines;
  lines = refl;
  head = refl;
}
group_lines-Grouped gap start end (n ∷ ns) (low, h) = elim (Bool-cases (leb (n - end) gap)) [
  | inl near ↦
      let g = group_lines-Grouped gap start n ns h in
      record {
        more = n ∷ g.more;
        rest = g.rest;
        others = g.others;
        chained = (low, omega (arith, leb→le (n - end) gap near), g.chained);
        far = g.far;
        clustered = g.clustered;
        lines = ap (λ l. n ∷ l) g.lines;
        head = rw near g.head;
      }
  | inr away ↦
      let g = group_lines-Grouped gap n n ns h in
      record {
        more = [];
        rest = n ∷ ns;
        others = group_lines gap n n ns;
        chained = tt;
        far = ground arith;
        clustered =
            rw g.head (chain n g.more g.rest g.chained g.far g.clustered (ap (λ l. n ∷ l) g.lines));
        lines = refl;
        head = rw away;
      }
]

cluster_sorted-IsClustering :
    (gap : ℕ) (ns : List ℕ) → IsSortedFrom 0 ns → IsClustering gap ns (cluster_sorted gap ns)
cluster_sorted-IsClustering gap [] h = no_lines
cluster_sorted-IsClustering gap (n ∷ ns) (_, h) =
    let g = group_lines-Grouped gap n n ns h in
    rw g.head (chain n g.more g.rest g.chained g.far g.clustered (ap (λ l. n ∷ l) g.lines))

insert_line-IsSortedFrom :
    (low n : ℕ) (ns : List ℕ) → low ≤ n → IsSortedFrom low ns → IsSortedFrom low (insert_line n ns)
unfolding insert_line
insert_line-IsSortedFrom low n [] h s = (h, tt)
insert_line-IsSortedFrom low n (m ∷ ms) h (l, s) = elim (Bool-cases (leb n m)) [
  | inl small ↦ rw small (h, (leb→le n m small, s))
  | inr big ↦ rw big (l, insert_line-IsSortedFrom m n ms (ground arith) s)
]

sort_lines-IsSortedFrom : (ns : List ℕ) → IsSortedFrom 0 (sort_lines ns)
unfolding sort_lines
sort_lines-IsSortedFrom [] = tt
sort_lines-IsSortedFrom (n ∷ ns) =
    insert_line-IsSortedFrom 0 n (sort_lines ns) (omega arith) (sort_lines-IsSortedFrom ns)

insert_line-perm : (n : ℕ) (ns : List ℕ) → Perm (insert_line n ns) (n ∷ ns)
unfolding insert_line
insert_line-perm n [] = Perm.refl (n ∷ [])
insert_line-perm n (m ∷ ms) = elim (Bool-cases (leb n m)) [
  | inl small ↦ rw small (Perm.refl (n ∷ m ∷ ms))
  | inr big ↦ rw big (Perm.trans (Perm.cons m (insert_line-perm n ms)) (Perm.swap n m ms))
]

sort_lines-perm : (ns : List ℕ) → Perm (sort_lines ns) ns
unfolding sort_lines
sort_lines-perm [] = Perm.refl []
sort_lines-perm (n ∷ ns) =
    Perm.trans (insert_line-perm n (sort_lines ns)) (Perm.cons n (sort_lines-perm ns))

-- The clusters of a list of values are those of a sorted rearrangement of its positive integers:
-- this is cut into chains with steps of at most `gap`, each cluster spans its chain from the first
-- line to the last, and from each chain to the next line there are more than `gap` lines.
pub cluster_lines-IsClustering :
    (values : List (Option ℤ)) (gap : ℕ)
    → (lines : List ℕ) × Perm lines (sanitize_lines values)
      × IsSortedFrom 0 lines
      × IsClustering gap lines (cluster_lines values gap)
unfolding cluster_lines
cluster_lines-IsClustering values gap =
    let ns = sort_lines (sanitize_lines values) in
    (
      ns,
      sort_lines-perm (sanitize_lines values),
      sort_lines-IsSortedFrom (sanitize_lines values),
      cluster_sorted-IsClustering gap ns (sort_lines-IsSortedFrom (sanitize_lines values)),
    )
