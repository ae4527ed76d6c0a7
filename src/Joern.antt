-- ===== src/Joern.antt =====
-- auditzoo/agents/cwe78_study/joern_arm.py: the state of the Joern arm, its three catalogs, and the
-- merging of the raw records of its queries into findings. The queries themselves are text for
-- Joern, and their answers are parameters.
pub mod Catalogs
pub mod Records
pub mod Dedup
pub mod Tables
pub mod Strength
use audit_zoo_bug_byters.Base.{
  ℕ, suc, ◌+◌, Bool, true, false, ◌&&◌, ◌||◌, Option, none, some, List, [], ◌∷◌, ◌++◌, Text,
  contains, map, if◌then◌else◌,
}
use audit_zoo_bug_byters.Catalog.{Entry, text, sanitize_catalog}

-- The fields `_sources`, `_sinks` and `_sanitizers` of `JoernArm`.
pub record JoernArm : Type 0 where
  pub sources : List Text
  pub sinks : List Text
  pub sanitizers : List Text

-- `JoernArm.__init__`, once the catalogs are given or loaded.
unfoldable pub create : List Entry → List Entry → List Entry → JoernArm
create sources sinks sanitizers = record {
  sources = (sanitize_catalog sources).0;
  sinks = (sanitize_catalog sinks).0;
  sanitizers = (sanitize_catalog sanitizers).0;
}

-- `for s in cleaned: if s not in known: known.append(s)`
unfoldable pub add_missing : List Text → List Text → List Text
add_missing known [] = known
add_missing known (s ∷ cleaned) =
    add_missing (if contains known s then known else known ++ (s ∷ [])) cleaned

abbrev expand : List Text → List Text → List Text
expand known new = add_missing known (sanitize_catalog (map text new)).0

unfoldable pub expand_sources : JoernArm → List Text → JoernArm
unfolding add_missing
expand_sources arm new = record arm { sources = expand arm.sources new }

unfoldable pub expand_sinks : JoernArm → List Text → JoernArm
unfolding add_missing
expand_sinks arm new = record arm { sinks = expand arm.sinks new }

unfoldable pub expand_sanitizers : JoernArm → List Text → JoernArm
unfolding add_missing
expand_sanitizers arm new = record arm { sanitizers = expand arm.sanitizers new }
