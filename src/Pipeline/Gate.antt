-- ===== src/Pipeline/Gate.antt =====
-- `verify_sink_wrapper`: the structural evidence that a helper must have to become a sink.
pub mod Signals
use audit_zoo_bug_byters.Base.{
  ℕ, Bool, true, false, not, ◌&&◌, ◌||◌, Option, none, some, List, [], ◌∷◌, ◌++◌, Text, is_empty,
  or_text, after_last, contains, if◌then◌else◌,
}
use audit_zoo_bug_byters.Pipeline.Words.{find_word, find_call}

-- One object of the call graph's answer: texts after `str`, "" where a key is missing, and the
-- callees that are not empty.
pub record Neighbour : Type 0 where
  pub name : Text
  pub callees : List Text
  pub code : Text
  pub source : Text

-- The dict `{}` for a helper that the call graph does not name.
abbrev pub no_neighbour : Neighbour
no_neighbour = record { name = []; callees = []; code = []; source = [] }

-- `{s.rsplit(".", 1)[-1] for s in current_sinks if s}`, with repetitions
unfoldable pub sink_tails : List Text → List Text
sink_tails [] = []
sink_tails ([] ∷ sinks) = sink_tails sinks
sink_tails ((c ∷ s) ∷ sinks) = after_last b'.' (c ∷ s) ∷ sink_tails sinks

module _ (is_word : ℕ → Bool) where
  -- The three signals for one tail, as each loop tests them.
  abbrev pub calls_in_body : Text → Text → Bool
  calls_in_body body tail = not (is_empty body) && find_call is_word tail none body

  abbrev pub word_in_evidence : Text → Text → Bool
  word_in_evidence evidence tail =
      not (is_empty evidence) && find_word is_word (λ c. c) tail none evidence

  unfoldable pub any_tail : (Text → Bool) → List Text → Bool
  any_tail test [] = false
  any_tail test (tail ∷ tails) = test tail || any_tail test tails

  -- `verify_sink_wrapper`. With no tail all three loops are empty.
  unfoldable pub verify_sink_wrapper : Neighbour → List Text → Text → Bool
  unfolding sink_tails any_tail
  verify_sink_wrapper neighbour sinks evidence =
      let tails = sink_tails sinks in
      if is_empty tails
      then false
      else if any_tail (contains neighbour.callees) tails
      then true
      else if any_tail (calls_in_body (or_text neighbour.code neighbour.source)) tails
      then true
      else any_tail (word_in_evidence evidence) tails
