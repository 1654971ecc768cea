-- ===== src/Assembly/Passed.antt =====
-- What a prompt is that the gateway and the guardrails let through.
use compliance_framework.Prelude.{
  String, true, ◌≡◌, sym, ◌∙◌, inl, inr, [], All, ◌≤ℚ◌, ok, Bool-cases, List-cases, Result-cases,
  Some-absurd, arith,
}
use compliance_framework.Models.{ExecutionContext}
use compliance_framework.Runtime.{Runtime}
use compliance_framework.Guardrails.Patterns.{mask, find_injection_markers}
use compliance_framework.Guardrails.RegexPii
use compliance_framework.Guardrails.Semantic.{injection_intents, jaccard, tokenize}
use compliance_framework.Guardrails.Semantic.Scores.{inspect_input_exact}
use compliance_framework.Gateway.{Shim, authenticate, check_rate_limit, handle_inbound}
use compliance_framework.Assembly.{semantic_guardrail, default_threshold}

module _ (py : Runtime) where
  pub handle_inbound-ok :
      (prompt token clean : String) (context : ExecutionContext) (s : Shim)
      → (handle_inbound py prompt context token s).0 ≡ ok clean
      → (s.verifier token context ≡ ok true) × (clean ≡ mask py prompt)
  unfolding handle_inbound check_rate_limit authenticate
  handle_inbound-ok prompt token clean context s h =
      elim (Result-cases (s.verifier token context)) [
        | inr (e, failed) ↦ absurd (ground arith)
        | inl (b, told) ↦ elim (Bool-cases b) [
          | inr refused ↦ absurd (ground arith)
          | inl accepted ↦ (ground arith, ground arith)
        ]
      ]

  pub inspect_input-ok :
      (prompt inspected : String) (context : ExecutionContext)
      → RegexPii.inspect_input py true prompt context ≡ ok inspected
      → find_injection_markers py prompt ≡ []
  unfolding RegexPii.inspect_input
  inspect_input-ok prompt inspected context h =
      elim (List-cases (find_injection_markers py prompt)) [
        | inl clean ↦ clean
        | inr (x, xs, found) ↦ absurd (ground arith)
      ]

  pub semantic-ok :
      (prompt inspected : String) (context : ExecutionContext)
      → (semantic_guardrail py).inspect_input prompt context ≡ ok inspected
      → All
          (λ entry. ¬ (default_threshold ≤ℚ jaccard (tokenize py prompt) entry.1))
          injection_intents
        × (RegexPii.inspect_input py true prompt context ≡ ok inspected)
  semantic-ok prompt inspected context h =
      let inner = RegexPii.inspect_input py true in
      elim (inspect_input_exact py default_threshold inner prompt context (omega arith)) [
        | inl (below, same) ↦ (below, sym same ∙ h)
        | inr reached ↦ absurd (
            Some-absurd (λ entry (rejects, greatest). ground (arith, rejects.1, h))
              injection_intents reached)
      ]
