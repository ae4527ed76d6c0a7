-- ===== src/Base/Paths.antt =====
-- `pathlib.Path(p).name` on POSIX: the last part of the path that is neither empty nor a single dot.
use mathlib.Core.Bool.{Bool, ◌||◌}
use mathlib.Core.List.{[], ◌∷◌, ◌++◌}
use audit_zoo_bug_byters.Base.Tests.{◌==◌, if◌then◌else◌}
use audit_zoo_bug_byters.Base.Strings.{Text, codes, text_eq, is_empty, ends_with}

-- Walks the path with the part read so far and the last part that counts.
unfoldable pub name_loop : Text → Text → Text → Text
name_loop part last [] = if is_empty part || text_eq part (codes ".") then last else part
name_loop part last (c ∷ p) =
    let kept = if is_empty part || text_eq part (codes ".") then last else part in
    name_loop (if c == b'/' then [] else part ++ (c ∷ [])) (if c == b'/' then kept else last) p

unfoldable pub path_name : Text → Text
unfolding name_loop text_eq
path_name p = name_loop [] [] p

-- The loose match of two paths: by name, or by one being the end of the other.
unfoldable pub path_matches : Text → Text → Bool
unfolding path_name ends_with
path_matches found vuln =
    text_eq (path_name found) (path_name vuln) || ends_with vuln found || ends_with found vuln
