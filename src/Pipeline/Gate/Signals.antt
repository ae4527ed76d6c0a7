-- ===== src/Pipeline/Gate/Signals.antt =====
-- The signals that the gate asks for.
use audit_zoo_bug_byters.Base.{
  ℕ, ◌≡◌, refl, ap, sym, ◌∙◌, inl, inr, Bool, true, false, not, ◌&&◌, ◌||◌, List, [], ◌∷◌, Text,
  is_empty, or_text, after_last, contains, Bool-cases, arith, if◌then◌else◌,
}
use audit_zoo_bug_byters.Pipeline.Gate.{
  Neighbour, calls_in_body, word_in_evidence, sink_tails, any_tail, verify_sink_wrapper,
}

module _ (is_word : ℕ → Bool) where
  -- Looking for the three signals one after the other finds what one loop finds.
  any_tail-three :
      (p q r : Text → Bool) (tails : List Text)
      → (if any_tail is_word p tails
          then true
          else if any_tail is_word q tails
          then true
          else any_tail is_word r tails)
        ≡ any_tail is_word (λ t. p t || (q t || r t)) tails
  unfolding any_tail
  any_tail-three p q r [] = refl
  any_tail-three p q r (t ∷ tails) = ground (arith, any_tail-three p q r tails)

  module _ (neighbour : Neighbour) (evidence : Text) where
    -- The helper has a signal for a tail: it is among the callees, is called in the body, or is a
    -- word of the evidence.
    abbrev pub signal : Text → Bool
    signal tail =
        contains neighbour.callees tail
        || (calls_in_body is_word (or_text neighbour.code neighbour.source) tail
            || word_in_evidence is_word evidence tail)

    -- Some sink of the catalog whose name is not empty has a signal for its last segment.
    abbrev pub any_signal : List Text → Bool
    any_signal [] = false
    any_signal (sink ∷ sinks) =
        (not (is_empty sink) && signal (after_last b'.' sink)) || any_signal sinks

    any_signal-tails :
        (sinks : List Text) → any_tail is_word signal (sink_tails sinks) ≡ any_signal sinks
    unfolding any_tail sink_tails
    any_signal-tails [] = refl
    any_signal-tails ([] ∷ sinks) = any_signal-tails sinks
    any_signal-tails ((c ∷ s) ∷ sinks) =
        ap (λ b. signal (after_last b'.' (c ∷ s)) || b) (any_signal-tails sinks)

    any_tail-empty :
        (p : Text → Bool) (tails : List Text)
        → is_empty tails ≡ true
        → any_tail is_word p tails ≡ false
    unfolding any_tail
    any_tail-empty p [] h = refl
    any_tail-empty p (t ∷ tails) h = cc

    -- The gate passes a helper exactly if it has a signal for some sink of the catalog: the order in
    -- which the loops look for the three signals makes no difference.
    pub verify_sink_wrapper_lem :
        (sinks : List Text)
        → verify_sink_wrapper is_word neighbour sinks evidence ≡ any_signal sinks
    unfolding verify_sink_wrapper
    verify_sink_wrapper_lem sinks =
        let tails = sink_tails sinks in
        elim (Bool-cases (is_empty tails)) [
          | inl nothing ↦
              rw nothing (sym (any_tail-empty signal tails nothing) ∙ any_signal-tails sinks)
          | inr found ↦ rw found (any_tail-three _ _ _ tails ∙ any_signal-tails sinks)
        ]
