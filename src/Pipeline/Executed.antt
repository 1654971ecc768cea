-- ===== src/Pipeline/Executed.antt =====
-- What holds of each call of a run that was executed, from what holds of each attempt.
use compliance_framework.Prelude.{
  ℕ, suc, String, ◌≡◌, sym, subst, ◌∙◌, inl, inr, none, some, Option-cases, Bool-cases, List, [],
  ◌∷◌, ok, Result-cases, arith,
}
use compliance_framework.Models.{ExecutionContext, ToolRequest, SandboxResult}
use compliance_framework.Runtime.{Runtime}
use compliance_framework.Audit.WormLog.{Codec, Logger, Stamp}
use compliance_framework.Gateway.{
  ProposedToolCall, to_tool_request, handle_inbound, propose_tool_calls,
}
use compliance_framework.Interceptor.{
  Interceptor, InterceptorResult, State, Progress, attempt, check_breaker, audit_and_wrap, finish,
  breaker_denial, handle,
}
use compliance_framework.Pipeline.{
  Pipeline, Stage, PipelineResult, handle_calls, respond, reason, run,
}

-- The result of a call has a sandbox result only if this holds of the call's request.
abbrev pub Executed :
    (ToolRequest → Type 0) → List ProposedToolCall → List InterceptorResult → Type 0
Executed P [] [] = Unit
Executed P [] (r ∷ rs) = ⊥
Executed P (c ∷ cs) [] = ⊥
Executed P (c ∷ cs) (r ∷ rs) =
    ((result : SandboxResult) → r.sandbox_result ≡ some result → P (to_tool_request c))
    × Executed P cs rs

module _ (py : Runtime) (codec : Codec) {W : Type 0} where
  audit_and_wrap-sandbox_result :
      (i : Interceptor W) (stamp : Stamp) (context : ExecutionContext) (request : ToolRequest)
      (p : Progress) (l : Logger) (r : InterceptorResult)
      → (audit_and_wrap py i codec stamp context request p.decision p.sandbox_result l).0 ≡ ok r
      → r.sandbox_result ≡ p.sandbox_result
  unfolding audit_and_wrap
  audit_and_wrap-sandbox_result i stamp context request p l r h = ground arith

  finish-sandbox_result :
      (i : Interceptor W) (stamp : Stamp) (context : ExecutionContext) (request : ToolRequest)
      (p : Progress) (w : W) (l : Logger) (r : InterceptorResult)
      → (finish py i codec stamp context request (p, w) l).0 ≡ ok r
      → r.sandbox_result ≡ p.sandbox_result
  unfolding finish
  finish-sandbox_result i stamp context request p w l r h =
      let a = audit_and_wrap py i codec stamp context request p.decision p.sandbox_result l in
      elim (Result-cases a.0) [
        | inr (e, failed) ↦ absurd (ground arith)
        | inl (told, written) ↦ elim (Option-cases p.pending) [
          | inr (e, left) ↦ absurd (ground arith)
          | inl free ↦ ground (arith, audit_and_wrap-sandbox_result i stamp context request p l r)
        ]
      ]

  -- A result with a sandbox result comes from an attempt with that sandbox result.
  handle-sandbox_result :
      (i : Interceptor W) (stamp : Stamp) (context : ExecutionContext) (request : ToolRequest)
      (s : State W) (r : InterceptorResult) (result : SandboxResult)
      → (handle py i codec stamp context request s).0 ≡ ok r
      → r.sandbox_result ≡ some result
      → let (_, w) = check_breaker py i context request s.world in
        (attempt py i context request w).0.sandbox_result ≡ some result
  unfolding handle
  handle-sandbox_result i stamp context request s r result h k =
      let c = check_breaker py i context request s.world in
      elim (Result-cases c.0) [
        | inr (e, failed) ↦ absurd (ground arith)
        | inl (closed, asked) ↦ elim (Bool-cases closed) [
          | inl pass ↦
              let (p, w) = attempt py i context request c.1 in
              let done : (finish py i codec stamp context request (p, w) s.log).0 ≡ ok r =
                ground arith in
              sym (finish-sandbox_result i stamp context request p w s.log r done) ∙ k
          | inr blocked ↦
              let p : Progress = record {
                decision = breaker_denial context request;
                sandbox_result = none;
                pending = none;
              } in
              absurd
                (ground (arith, audit_and_wrap-sandbox_result i stamp context request p s.log r))
        ]
      ]

  module _ (pipeline : Pipeline W) (context : ExecutionContext) (stamps : ℕ → Stamp) where
    -- The calls that the loop handles one after the other, from this state on: the result of a call has
    -- a sandbox result only if this holds of its request and the world in which the breaker let it pass.
    abbrev pub ExecutedFrom :
        (ToolRequest → W → Type 0)
        → ℕ
        → State W
        → List ProposedToolCall
        → List InterceptorResult
        → Type 0
    ExecutedFrom P n s [] [] = Unit
    ExecutedFrom P n s [] (r ∷ rs) = ⊥
    ExecutedFrom P n s (c ∷ cs) [] = ⊥
    ExecutedFrom P n s (c ∷ cs) (r ∷ rs) =
        ((result : SandboxResult)
          → r.sandbox_result ≡ some result
          → P (to_tool_request c)
              (check_breaker py pipeline.interceptor context (to_tool_request c) s.world).1)
        × ExecutedFrom P (suc n)
            (handle py pipeline.interceptor codec (stamps n) context (to_tool_request c) s).1 cs rs

    Executed-from :
        (P : ToolRequest → Type 0) (n : ℕ) (s : State W) (calls : List ProposedToolCall)
        (results : List InterceptorResult)
        → ExecutedFrom (λ request w. P request) n s calls results
        → Executed P calls results
    Executed-from P n s [] [] h = tt
    Executed-from P n s [] (r ∷ rs) h = absurd h
    Executed-from P n s (c ∷ cs) [] h = absurd h
    Executed-from P n s (c ∷ cs) (r ∷ rs) h = (h.0, Executed-from P (suc n) _ cs rs h.1)

  module _ (pipeline : Pipeline W) (context : ExecutionContext) (stamps : ℕ → Stamp)
      (P : ToolRequest → W → Type 0)
      (licensed : (request : ToolRequest) (w : W) (result : SandboxResult)
        → (attempt py pipeline.interceptor context request w).0.sandbox_result ≡ some result
        → P request w) where
    abbrev From : ℕ → State W → List ProposedToolCall → List InterceptorResult → Type 0
    From = ExecutedFrom pipeline context stamps P

    handle_calls-Executed :
        (calls : List ProposedToolCall) (n : ℕ) (s : State W) (results : List InterceptorResult)
        → (handle_calls py codec pipeline context stamps n calls s).0 ≡ ok results
        → From n s calls results
    unfolding handle_calls
    handle_calls-Executed [] n s [] h = tt
    handle_calls-Executed [] n s (r ∷ rs) h = absurd (ground arith)
    handle_calls-Executed (call ∷ calls) n s results h =
        let request = to_tool_request call in
        let first = handle py pipeline.interceptor codec (stamps n) context request s in
        let rest = handle_calls py codec pipeline context stamps (suc n) calls first.1 in
        elim (Result-cases first.0) [
          | inr (e, failed) ↦ absurd (ground arith)
          | inl (r, told) ↦ elim (Result-cases rest.0) [
            | inr (e, failed) ↦ absurd (ground arith)
            | inl (more, others) ↦
                let same : r ∷ more ≡ results = ground arith in
                subst (From n s (call ∷ calls)) same (
                  λ result k. licensed request _ result (
                      handle-sandbox_result pipeline.interceptor (stamps n) context request s r
                        result told k),
                  handle_calls-Executed calls (suc n) first.1 more others,
                )
          ]
        ]

    reason-Executed :
        (prompt : String) (s : State W) (result : PipelineResult)
        → (reason py codec pipeline context stamps prompt s).0 ≡ ok result
        → From 0 s pipeline.llm_client.scripted_tool_calls result.tool_call_results
    unfolding reason respond propose_tool_calls
    reason-Executed prompt s result h =
        let calls = pipeline.llm_client.scripted_tool_calls in
        let handled = handle_calls py codec pipeline context stamps 0 calls s in
        elim (Result-cases handled.0) [
          | inr (e, failed) ↦ absurd (ground arith)
          | inl (results, told) ↦
              let same : results ≡ result.tool_call_results = ground arith in
              subst (From 0 s calls) same (handle_calls-Executed calls 0 s results told)
        ]

    -- The gateway and the guardrail let the prompt of a run that returns a result through, and each of
    -- its results with a sandbox result belongs to a call for which what the interceptor's attempts need
    -- to reach the sandbox held of the world in which the call was attempted.
    pub run-ExecutedFrom :
        (prompt token : String) (s : Stage W) (result : PipelineResult)
        → (run py codec pipeline context stamps prompt token s).0 ≡ ok result
        → (clean : String) × (inspected : String) × ((handle_inbound py prompt context token
              s.gateway).0
            ≡ ok clean)
          × (pipeline.guardrail.inspect_input clean context ≡ ok inspected)
          × From 0 s.inner pipeline.llm_client.scripted_tool_calls result.tool_call_results
    unfolding run
    run-ExecutedFrom prompt token s result h =
        elim (Result-cases (handle_inbound py prompt context token s.gateway).0) [
          | inr (e, refused) ↦ absurd (ground arith)
          | inl (clean, passed) ↦
              elim (Result-cases (pipeline.guardrail.inspect_input clean context)) [
                | inr (e, rejected) ↦ absurd (ground arith)
                | inl (inspected, answered) ↦ (
                  clean,
                  inspected,
                  passed,
                  answered,
                  reason-Executed inspected s.inner result (ground arith),
                )
              ]
        ]

  -- The same, of what does not depend on the world.
  pub run-Executed :
      (pipeline : Pipeline W) (context : ExecutionContext) (stamps : ℕ → Stamp)
      (P : ToolRequest → Type 0)
      → ((request : ToolRequest) (w : W) (result : SandboxResult)
          → (attempt py pipeline.interceptor context request w).0.sandbox_result ≡ some result
          → P request)
      → (prompt token : String) (s : Stage W) (result : PipelineResult)
      → (run py codec pipeline context stamps prompt token s).0 ≡ ok result
      → (clean : String) × (inspected : String) × ((handle_inbound py prompt context token
            s.gateway).0
          ≡ ok clean)
        × (pipeline.guardrail.inspect_input clean context ≡ ok inspected)
        × Executed P pipeline.llm_client.scripted_tool_calls result.tool_call_results
  run-Executed pipeline context stamps P licensed prompt token s result h =
      let (clean, inspected, passed, answered, executed) =
        run-ExecutedFrom pipeline context stamps (λ request w. P request) licensed prompt token s
          result h in
      (
        clean,
        inspected,
        passed,
        answered,
        Executed-from pipeline context stamps P 0 s.inner _ _ executed,
      )
