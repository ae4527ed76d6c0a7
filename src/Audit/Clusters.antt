-- ===== src/Audit/Clusters.antt =====
-- `_cluster_lines` and `_line_in_ranges`.
pub mod Chains
use audit_zoo_bug_byters.Base.{
  ℕ, suc, zero, ◌+◌, ◌-◌, Bool, true, false, ◌&&◌, ◌||◌, Option, none, some, List, [], ◌∷◌, ◌++◌, ℤ,
  pos, negsuc, pos_part, neg_part, leb, if◌then◌else◌,
}

-- `int(value)`, kept if it is above 0. `none` is a value at which `int` raises.
unfoldable pub sanitize_lines : List (Option ℤ) → List ℕ
sanitize_lines [] = []
sanitize_lines (some (pos (suc n)) ∷ vs) = suc n ∷ sanitize_lines vs
sanitize_lines (_ ∷ vs) = sanitize_lines vs

-- `sanitized.sort()`
unfoldable pub insert_line : ℕ → List ℕ → List ℕ
insert_line n [] = n ∷ []
insert_line n (m ∷ ms) = let rest = insert_line n ms in if leb n m then n ∷ m ∷ ms else m ∷ rest

unfoldable pub sort_lines : List ℕ → List ℕ
unfolding insert_line
sort_lines [] = []
sort_lines (n ∷ ns) = insert_line n (sort_lines ns)

-- The loop over the sorted lines, with the cluster that is open. The gap is not negative.
unfoldable pub group_lines : ℕ → ℕ → ℕ → List ℕ → List (ℕ × ℕ)
group_lines gap start end [] = (start, end) ∷ []
group_lines gap start end (n ∷ ns) =
    let joined = group_lines gap start n ns in
    let split = (start, end) ∷ group_lines gap n n ns in if leb (n - end) gap then joined else split

abbrev pub cluster_sorted : ℕ → List ℕ → List (ℕ × ℕ)
cluster_sorted gap [] = []
cluster_sorted gap (n ∷ ns) = group_lines gap n n ns

-- `_cluster_lines`
unfoldable pub cluster_lines : List (Option ℤ) → ℕ → List (ℕ × ℕ)
unfolding sanitize_lines sort_lines group_lines
cluster_lines lines gap = cluster_sorted gap (sort_lines (sanitize_lines lines))

-- `start - tolerance <= line <= end + tolerance`
unfoldable pub in_span : ℕ → ℤ → ℕ × ℕ → Bool
in_span tolerance line (start, end) =
    leb (start + neg_part line) (pos_part line + tolerance)
    && leb (pos_part line) (end + tolerance + neg_part line)

-- `_line_in_ranges`
unfoldable pub line_in_ranges : ℤ → List (ℕ × ℕ) → ℕ → Bool
unfolding in_span
line_in_ranges line [] tolerance = false
line_in_ranges line (r ∷ rs) tolerance =
    in_span tolerance line r || line_in_ranges line rs tolerance
