-- ===== src/Pipeline/Rounds/Chain.antt =====
-- How the rounds hang together.
use audit_zoo_bug_byters.Base.{
  if◌then◌else◌, ℕ, suc, zero, ◌≤◌, ◌≡◌, Bool, false, List, [], ◌∷◌, length,
}
use audit_zoo_bug_byters.Joern.{JoernArm}
use audit_zoo_bug_byters.Joern.Catalogs.{ArmIsClean}
use audit_zoo_bug_byters.Pipeline.Refine.Steps.{ArmGrown}
use audit_zoo_bug_byters.Pipeline.Rounds.{Iteration}

-- What each round promises, given the arm that it begins with and its number.
pub record IsRound (k : ℕ) (arm : JoernArm) (r : Iteration) : Type 0 where
  pub number : r.iteration ≡ k
  pub begins : r.catalog_pre ≡ arm
  pub clean : ArmIsClean r.catalog_post
  pub grown : ArmGrown arm r.catalog_post
  pub few : length r.refinement_actions ≤ 1
  pub honest : r.grew ≡ false → r.catalog_post ≡ arm

-- The number of rounds from `k` on, of `n`, before the first that raises an exception.
abbrev pub rounds_before : (ℕ → Bool) → ℕ → ℕ → ℕ
rounds_before raises k zero = 0
rounds_before raises k (suc n) = if raises k then 0 else suc (rounds_before raises (suc k) n)

-- The rounds of a list, each beginning where the one before ended.
abbrev pub IsLinked : ℕ → JoernArm → List Iteration → Type 0
IsLinked k arm [] = Unit
IsLinked k arm (r ∷ rs) = IsRound k arm r × IsLinked (suc k) r.catalog_post rs
