-- ===== src/Guardrails/Semantic.antt =====
-- guardrails/semantic.py. The score is a quotient, and so is the threshold.
pub mod Scores
pub mod Words
use compliance_framework.Prelude.{
  String, ◌<>◌, Bool, not, ◌||◌, Option, none, some, truthy, length, List, [], ◌∷◌, Dict, Kind, Exn,
  Result, raise, Ratio, leb_ratio, ltb_ratio, zero_ratio, if◌then◌else◌,
}
use compliance_framework.Models.{ExecutionContext}
use compliance_framework.Runtime.{Runtime}
use compliance_framework.Guardrails.Tokens.{findall, to_set, intersection, union}

unfoldable pub injection_intents : Dict (List String)
injection_intents =
    ("override_instructions", "ignore" ∷ "prior" ∷ "previous" ∷ "instructions" ∷ "disregard" ∷ [])
    ∷ ("role_override", "you" ∷ "are" ∷ "now" ∷ "unrestricted" ∷ "no" ∷ "longer" ∷ "assistant" ∷ [])
    ∷ (
      "exfiltrate_system_prompt",
      "reveal" ∷ "print" ∷ "system" ∷ "prompt" ∷ "show" ∷ "instructions" ∷ [],
    )
    ∷ (
      "disable_safety",
      "disable" ∷ "bypass" ∷ "safety" ∷ "guardrails" ∷ "filters" ∷ "turn" ∷ "off" ∷ [],
    )
    ∷ []

-- The union of sets one of which has a member is not empty, so the source's test of it is left out.
unfoldable pub jaccard : List String → List String → Ratio
jaccard a b =
    if not (truthy a) || not (truthy b)
    then zero_ratio
    else record { num = length (intersection a b); den = length (union a b) }

-- The best score so far, and its label.
pub record Best : Type 0 where
  pub score : Ratio
  pub label : Option String

-- one round of the loop of `semantic_injection_score`
unfoldable pub improve : Best → String → Ratio → Best
improve best label score =
    if ltb_ratio best.score score then record { score = score; label = some label } else best

-- the loop
unfoldable pub best_of : List String → Best → Dict (List String) → Best
best_of tokens best [] = best
best_of tokens best ((label, intent_tokens) ∷ intents) =
    best_of tokens (improve best label (jaccard tokens intent_tokens)) intents

-- `str(label)` in an f-string
abbrev label_text : Option String → String
label_text none = "None"
label_text (some label) = label

module _ (py : Runtime) where
  -- `_tokenize`
  unfoldable pub tokenize : String → List String
  tokenize text = to_set (findall (py.lower text))

  unfoldable pub semantic_injection_score : String → Best
  semantic_injection_score text =
      best_of (tokenize text) (record { score = zero_ratio; label = none }) injection_intents

  -- the exception of `inspect_input`
  unfoldable pub rejection : Best → ExecutionContext → Exn
  rejection best context = record {
    kind = Kind.guardrail_violation;
    message =
        "input rejected: semantic similarity "
        <> py.two_digits best.score
        <> " to known injection intent '"
        <> label_text best.label
        <> "' (session="
        <> context.session_id
        <> ")";
  }

  module _ (threshold : Ratio) (inner : String → ExecutionContext → Result String) where
    -- `SemanticGuardrail.inspect_input`, over the inner guardrail's
    unfoldable pub inspect_input : String → ExecutionContext → Result String
    inspect_input prompt context =
        let best = semantic_injection_score prompt in
        if leb_ratio threshold best.score
        then raise (rejection best context)
        else inner prompt context

  -- `SemanticGuardrail.inspect_output`
  unfoldable pub inspect_output :
      (String → ExecutionContext → Result String) → String → ExecutionContext → Result String
  inspect_output inner response context = inner response context
