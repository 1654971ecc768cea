-- ===== src/Assembly/Levels.antt =====
-- What a run of the pipelines of the two levels lets through, from the credential to the sandbox.
use compliance_framework.Prelude.{
  ℕ, String, true, false, ◌≡◌, sym, ap, ◌∙◌, subst, ◌⊎◌, inl, inr, some, [], Dict, All, ◌≤ℚ◌, ok, ℤ,
  member, arith,
}
use compliance_framework.Models.{ExecutionContext, ToolRequest, PolicyDecision, SandboxResult}
use compliance_framework.Runtime.{Runtime}
use compliance_framework.Audit.WormLog.{Codec, Stamp}
use compliance_framework.Policy.Rules.{ToolRule, PolicyRuleSet}
use compliance_framework.Policy.DbRules.{Db, requires_approval}
use compliance_framework.Policy.StaticEngine
use compliance_framework.Policy.StaticEngine.Exact as StaticExact
use compliance_framework.Policy.StaticEngine.Exact.{evaluate_allows_iff}
use compliance_framework.Policy.DbEngine.Exact as DbExact
use compliance_framework.Guardrails.Patterns.{mask, find_injection_markers}
use compliance_framework.Guardrails.RegexPii
use compliance_framework.Guardrails.Semantic.{injection_intents, jaccard, tokenize}
use compliance_framework.Identity.SessionToken.{Hmac, Moment, Issuer, Parts}
use compliance_framework.Identity.SessionToken.Binding.{joined, IsAccepted, verify_token_iff}
use compliance_framework.Gateway.{FakeLlmClient}
use compliance_framework.Reliability.InMemory.{Config}
use compliance_framework.Sandbox.Subprocess.{SubprocessSandbox}
use compliance_framework.Interceptor.{State, attempt, run_allowed}
use compliance_framework.Pipeline.{Stage, PipelineResult, run}
use compliance_framework.Pipeline.Executed.{Executed, ExecutedFrom, run-Executed, run-ExecutedFrom}
use compliance_framework.Assembly.{
  Host, IsHost, no_calls, static_engine, semantic_guardrail, default_threshold, l1_gateway,
  l2_gateway, l1_interceptor, l2_interceptor, l1_pipeline, l2_pipeline,
}
use compliance_framework.Assembly.Permitted.{asks_approve, sandboxed-Permits}
use compliance_framework.Assembly.Approved.{Granted, sandboxed-Granted}
use compliance_framework.Assembly.Passed.{handle_inbound-ok, inspect_input-ok, semantic-ok}

-- The rows of the store permit the request, and ask for no human.
abbrev pub IsLicensed : Runtime → Db → ExecutionContext → ToolRequest → Type 0
IsLicensed py store context request =
    ((calls : ℤ) × (limit : ℤ) × DbExact.Permits py store no_calls context request calls limit)
    × (requires_approval store request.tool_name request.function_name ≡ false)

-- The rule set permits the request; and where its rule asks for a human, the queue of this world held
-- a yes for the request, and the attempt that starts in this world runs the sandbox on a world in which
-- the queue has recorded the request with the engine's decision.
abbrev pub IsGranted :
    {W : Type 0}
    → Runtime
    → Host W
    → SubprocessSandbox W
    → PolicyRuleSet
    → ExecutionContext
    → ToolRequest
    → W
    → Type 0
IsGranted {W} py host sandbox rules context request w =
    let i = l1_interceptor host py sandbox rules in
    (rule : ToolRule) × (calls : ℤ) × StaticExact.Permits py rules no_calls context request rule
      calls
    × ((member request.function_name rule.requires_approval_functions ≡ false)
        ⊎ ((resolved : PolicyDecision) × (w' : W) × Granted host context request
              (StaticExact.decision_for py rules no_calls rule request) w w'
            × (attempt py i context request w ≡ run_allowed py i context request resolved w')))

module _ (py : Runtime) where
  module _ {W : Type 0} (host : Host W) (sandbox : SubprocessSandbox W) (client : FakeLlmClient)
      (codec : Codec) (context : ExecutionContext) (stamps : ℕ → Stamp) where
    module _ (hmac : Hmac) (store : Db) (cfg : Config) where
      l2-IsLicensed :
          (request : ToolRequest) (w : W) (result : SandboxResult)
          → (attempt py
              (l2_interceptor host py sandbox store cfg)
              context
              request
              w).0.sandbox_result
            ≡ some result
          → IsLicensed py store context request
      unfolding l2_interceptor
      l2-IsLicensed request w result h =
          let (permits, consent) =
            sandboxed-Permits py (l2_interceptor host py sandbox store cfg) store no_calls context
              request w result h in
          (
            permits,
            elim consent [ inl free ↦ free | inr (callback, found, said) ↦ absurd (ground arith) ],
          )

      -- A run of the second level's pipeline returns a result only if the token is a live one that was
      -- signed for this session and agent, no known injection intent is as similar to the masked prompt
      -- as the threshold, and that holds no injection marker; and a call of the run has a sandbox result
      -- only if the rows of the store permit it and ask for no human.
      pub l2_run :
          (issuer : Issuer) (now : Moment) (counts : Dict ℕ) (prompt token : String)
          (inner : State W) (result : PipelineResult)
          → (run py codec
              (l2_pipeline host py sandbox client store cfg)
              context
              stamps
              prompt
              token
              (record { gateway = l2_gateway py hmac issuer now counts; inner = inner })).0
            ≡ ok result
          → ((p : Parts) × (expiry : ℤ) × (token ≡ joined py hmac p)
              × IsAccepted py hmac issuer context now p expiry)
            × All
                (λ entry. ¬ (default_threshold ≤ℚ jaccard (tokenize py (mask py prompt)) entry.1))
                injection_intents
            × (find_injection_markers py (mask py prompt) ≡ [])
            × Executed
                (IsLicensed py store context)
                client.scripted_tool_calls
                result.tool_call_results
      unfolding l2_pipeline l2_gateway
      l2_run issuer now counts prompt token inner result h =
          let s : Stage W = record {
            gateway = l2_gateway py hmac issuer now counts;
            inner = inner;
          } in
          let (clean, inspected, passed, answered, executed) =
            run-Executed py codec (l2_pipeline host py sandbox client store cfg) context stamps
              (IsLicensed py store context) l2-IsLicensed prompt token s result h in
          let (accepted, masked) =
            handle_inbound-ok py prompt token clean context s.gateway passed in
          let answered' =
            subst (λ text. (semantic_guardrail py).inspect_input text context ≡ ok inspected) masked
              answered in
          let (intents, inner_passed) =
            semantic-ok py (mask py prompt) inspected context answered' in
          (
            (verify_token_iff py hmac issuer token context now).0 accepted,
            intents,
            inspect_input-ok py (mask py prompt) inspected context inner_passed,
            executed,
          )

    module _ (lawful : IsHost host) (rules : PolicyRuleSet) where
      l1-IsGranted :
          (request : ToolRequest) (w : W) (result : SandboxResult)
          → (attempt py (l1_interceptor host py sandbox rules) context request w).0.sandbox_result
            ≡ some result
          → IsGranted py host sandbox rules context request w
      unfolding l1_interceptor static_engine
      l1-IsGranted request w result h =
          let i = l1_interceptor host py sandbox rules in
          let (d, w', resolved, w'', answered, allowed, approved, same) =
            sandboxed-Granted py host lawful i context request w result h in
          let evaluated : StaticEngine.evaluate py rules no_calls context request ≡ ok d =
            ap (λ p. p.0) answered in
          let still : w ≡ w' = ap (λ p. p.1) answered in
          let (rule, calls, permits, decided) =
            (evaluate_allows_iff py rules no_calls context request d).0 (evaluated, allowed) in
          let asks = asks_approve (member request.function_name rule.requires_approval_functions) in
          (
            rule,
            calls,
            permits,
            elim approved [
              | inl free ↦ inl (
                  sym asks
                  ∙ ap (λ (x : PolicyDecision). member "human_approval" x.action_requirements)
                      (sym decided)
                  ∙ free)
              | inr given ↦ inr (
                resolved,
                w'',
                subst (λ x. Granted host context request x w w'') decided
                    (subst (λ x. Granted host context request d x w'') (sym still) given),
                same,
              )
            ],
          )

      -- A run of the first level's pipeline returns a result only if the masked prompt holds no injection
      -- marker; and a call of the run has a sandbox result only if the rule set permits it and, where its
      -- rule asks for a human, the approval queue, as the earlier calls of the run left it, holds a yes
      -- for its identifier or has yes as its default, and the sandbox ran on a world in which the queue
      -- has recorded the request with the engine's decision.
      pub l1_run :
          (counts : Dict ℕ) (prompt token : String) (inner : State W) (result : PipelineResult)
          → (run py codec
              (l1_pipeline host py sandbox client rules)
              context
              stamps
              prompt
              token
              (record { gateway = l1_gateway counts; inner = inner })).0
            ≡ ok result
          → (find_injection_markers py (mask py prompt) ≡ [])
            × ExecutedFrom py codec
                (l1_pipeline host py sandbox client rules)
                context
                stamps
                (IsGranted py host sandbox rules context)
                0
                inner
                client.scripted_tool_calls
                result.tool_call_results
      unfolding l1_pipeline l1_gateway
      l1_run counts prompt token inner result h =
          let s : Stage W = record { gateway = l1_gateway counts; inner = inner } in
          let (clean, inspected, passed, answered, executed) =
            run-ExecutedFrom py codec (l1_pipeline host py sandbox client rules) context stamps
              (IsGranted py host sandbox rules context) l1-IsGranted prompt token s result h in
          let (accepted, masked) =
            handle_inbound-ok py prompt token clean context s.gateway passed in
          (
            inspect_input-ok py (mask py prompt) inspected context (
                subst (λ text. RegexPii.inspect_input py true text context ≡ ok inspected) masked
                  answered),
            executed,
          )
