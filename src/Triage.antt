-- ===== src/Triage.antt =====
-- auditzoo/agents/cwe78_study/triage_agent.py: the verdict of the language model on one finding,
-- and the two brakes that check the text it quotes. The model's answer is a parameter: `ask` stands
-- for the call of `chat_json` on the prompt, which is built from the finding and the evidence.
pub mod Laws
use audit_zoo_bug_byters.Base.{
  ℕ, suc, zero, ◌+◌, Bool, true, false, not, ◌&&◌, Option, none, some, List, [], ◌∷◌, Text, codes,
  ltb, length, strip, lower, occurs_in, join_nonempty, ◌==◌, if◌then◌else◌,
}
use audit_zoo_bug_byters.Schemas.{
  Verdict, true_positive, false_positive, uncertain, verdict_of, Finding, TriageResult,
}

-- The answer of `chat_json`: an exception with its text, or the values that are read from the dict,
-- after `str` and with the defaults of the missing keys. That the answer is a dict is the type that
-- `chat_json` declares; a JSON text of another kind, on which `get` would raise, is left out.
pub data Reply : Type 0 where
  raised : Text → Reply
  answered : (verdict reasoning suggestion source_expr sink_expr : Text) → Reply

-- `_snippet_text`
unfoldable pub snippet_text : Finding → Text → Text
snippet_text f evidence =
    join_nonempty (codes "\n") (f.surrounding_context ∷ f.code_snippet ∷ evidence ∷ [])

-- `_substring_ok`
unfoldable pub substring_ok : Text → Text → Bool
substring_ok needle haystack =
    let n = strip needle in if ltb (length n) 2 then false else occurs_in n haystack

abbrev or_uncertain : Option Verdict → Verdict
or_uncertain none = uncertain
or_uncertain (some v) = v

-- The two brakes: the verdict that is kept, and the reason that is noted.
unfoldable pub brake : Verdict → Bool → Bool → Verdict × Text
brake true_positive source_ok sink_ok =
    if source_ok then (true_positive, []) else (uncertain, codes "source_expr_not_in_snippet")
brake false_positive source_ok sink_ok =
    (false_positive, (if sink_ok then [] else codes "sink_expr_not_in_snippet"))
brake uncertain source_ok sink_ok = (uncertain, [])

-- The rest of `TriageAgent.triage`, once the answer is there.
unfoldable pub conclude : Finding → Text → Reply → TriageResult
unfolding brake
conclude f evidence (raised why) = record {
  verdict = uncertain;
  reasoning = why;
  suggestion = [];
  source_expr = [];
  sink_expr = [];
  downgrade_reason = [];
}
conclude f evidence (answered v reasoning suggestion source_expr sink_expr) =
    let snippet = snippet_text f evidence in
    let (verdict, reason) =
      brake (or_uncertain (verdict_of (lower v))) (substring_ok source_expr snippet)
        (substring_ok sink_expr snippet) in
    record {
      verdict = verdict;
      reasoning = reasoning;
      suggestion = suggestion;
      source_expr = source_expr;
      sink_expr = sink_expr;
      downgrade_reason = reason;
    }

-- `evidence.get(idx, "")`, for the dict of `structural_evidence_map`
unfoldable pub evidence_at : List (ℕ × Text) → ℕ → Text
evidence_at [] idx = []
evidence_at ((i, ev) ∷ m) idx = if i == idx then ev else evidence_at m idx

module _ (ask : Finding → Text → Reply) where
  -- `TriageAgent.triage`
  unfoldable pub triage : Finding → Text → TriageResult
  triage f evidence = conclude f evidence (ask f evidence)

  -- The loop of `triage_batch`, from index `idx`.
  unfoldable pub triage_from : ℕ → List Finding → List (ℕ × Text) → List TriageResult
  triage_from idx [] evidence = []
  triage_from idx (f ∷ fs) evidence =
      triage f (evidence_at evidence idx) ∷ triage_from (suc idx) fs evidence

  -- `TriageAgent.triage_batch`
  unfoldable pub triage_batch : List Finding → List (ℕ × Text) → List TriageResult
  unfolding triage_from
  triage_batch fs evidence = triage_from 0 fs evidence
