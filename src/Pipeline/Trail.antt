-- ===== src/Pipeline/Trail.antt =====
-- What a run of the pipeline leaves in the audit log.
use compliance_framework.Prelude.{
  ℕ, suc, String, ◌≡◌, ◌∙◌, ap, inl, inr, none, Option-cases, Bool-cases, length, List, [], ◌∷◌,
  ◌++◌, map, ok, Result-cases, arith,
}
use mathlib.Core.List.{append-nil, append_assoc}
use compliance_framework.Models.{ExecutionContext, ToolRequest}
use compliance_framework.Runtime.{Runtime}
use compliance_framework.Audit.WormLog.{Codec, Logger, Stamp, log_call, append}
use compliance_framework.Gateway.{
  ProposedToolCall, to_tool_request, handle_inbound, propose_tool_calls,
}
use compliance_framework.Interceptor.{
  Interceptor, InterceptorResult, State, Progress, attempt, check_breaker, audit_and_wrap, finish,
  breaker_denial, handle,
}
use compliance_framework.Pipeline.{
  Pipeline, Stage, PipelineResult, handle_calls, respond, reason, run,
}

module _ (py : Runtime) (codec : Codec) {W : Type 0} where
  audit_and_wrap-written :
      (i : Interceptor W) (stamp : Stamp) (context : ExecutionContext) (request : ToolRequest)
      (p : Progress) (l : Logger) (result : InterceptorResult)
      → (audit_and_wrap py i codec stamp context request p.decision p.sandbox_result l).0
        ≡ ok result
      → (audit_and_wrap py i codec stamp context request p.decision p.sandbox_result l).1.lines
        ≡ l.lines ++ codec.dump_json result.audit_record ∷ []
  unfolding audit_and_wrap log_call append
  audit_and_wrap-written i stamp context request p l result h = elim (Option-cases l.fault) [
    | inl free ↦ ground arith
    | inr (e, fault) ↦ absurd (ground arith)
  ]

  module _ (i : Interceptor W) (stamp : Stamp) (context : ExecutionContext)
      (request : ToolRequest) where
    finish-written :
        (p : Progress) (w : W) (l : Logger) (result : InterceptorResult)
        → (finish py i codec stamp context request (p, w) l).0 ≡ ok result
        → (finish py i codec stamp context request (p, w) l).1.log.lines
          ≡ l.lines ++ codec.dump_json result.audit_record ∷ []
    unfolding finish
    finish-written p w l result h =
        let a = audit_and_wrap py i codec stamp context request p.decision p.sandbox_result l in
        elim (Result-cases a.0) [
          | inr (e, failed) ↦ absurd (ground arith)
          | inl (told, written) ↦ elim (Option-cases p.pending) [
            | inr (e, left) ↦ absurd (ground arith)
            | inl free ↦ ground (arith, audit_and_wrap-written i stamp context request p l result)
          ]
        ]

    handle-written :
        (s : State W) (result : InterceptorResult)
        → (handle py i codec stamp context request s).0 ≡ ok result
        → (handle py i codec stamp context request s).1.log.lines
          ≡ s.log.lines ++ codec.dump_json result.audit_record ∷ []
    unfolding handle
    handle-written s result h =
        let c = check_breaker py i context request s.world in
        elim (Result-cases c.0) [
          | inr (e, failed) ↦ absurd (ground arith)
          | inl (closed, asked) ↦ elim (Bool-cases closed) [
            | inl pass ↦
                let (p, w) = attempt py i context request c.1 in
                ground (arith, finish-written p w s.log result)
            | inr blocked ↦
                let p : Progress = record {
                  decision = breaker_denial context request;
                  sandbox_result = none;
                  pending = none;
                } in
                ground (arith, audit_and_wrap-written i stamp context request p s.log result)
          ]
        ]

  module _ (pipeline : Pipeline W) (context : ExecutionContext) (stamps : ℕ → Stamp) where
    -- The lines that results leave in a log.
    abbrev pub trail : List InterceptorResult → List String
    trail results = map (λ (r : InterceptorResult). codec.dump_json r.audit_record) results

    handle_calls-written :
        (calls : List ProposedToolCall) (n : ℕ) (s : State W) (results : List InterceptorResult)
        → (handle_calls py codec pipeline context stamps n calls s).0 ≡ ok results
        → ((handle_calls py codec pipeline context stamps n calls s).1.log.lines
            ≡ s.log.lines ++ trail results)
          × (length results ≡ length calls)
    unfolding handle_calls
    handle_calls-written [] n s results h = ground (arith, append-nil s.log.lines)
    handle_calls-written (call ∷ calls) n s results h =
        let first =
          handle py pipeline.interceptor codec (stamps n) context (to_tool_request call) s in
        let rest = handle_calls py codec pipeline context stamps (suc n) calls first.1 in
        elim (Result-cases first.0) [
          | inr (e, failed) ↦ absurd (ground arith)
          | inl (result, told) ↦ elim (Result-cases rest.0) [
            | inr (e, failed) ↦ absurd (ground arith)
            | inl (more, others) ↦
                let one =
                  handle-written pipeline.interceptor (stamps n) context (to_tool_request call) s
                    result told in
                let (lines, count) = handle_calls-written calls (suc n) first.1 more others in
                let same : result ∷ more ≡ results = ground arith in
                let all =
                  lines
                  ∙ ap (λ ls. ls ++ trail more) one
                  ∙ append_assoc s.log.lines (codec.dump_json result.audit_record ∷ [])
                      (trail more) in
                ground (arith, all, count)
          ]
        ]

    reason-written :
        (prompt : String) (s : State W) (result : PipelineResult)
        → (reason py codec pipeline context stamps prompt s).0 ≡ ok result
        → ((reason py codec pipeline context stamps prompt s).1.log.lines
            ≡ s.log.lines ++ trail result.tool_call_results)
          × (length result.tool_call_results ≡ length pipeline.llm_client.scripted_tool_calls)
    unfolding reason respond propose_tool_calls
    reason-written prompt s result h =
        let calls = pipeline.llm_client.scripted_tool_calls in
        let handled = handle_calls py codec pipeline context stamps 0 calls s in
        elim (Result-cases handled.0) [
          | inr (e, failed) ↦ absurd (ground arith)
          | inl (results, told) ↦
              let same : result.tool_call_results ≡ results = ground arith in
              ground (arith, handle_calls-written calls 0 s results told)
        ]

    -- A run that returns a result has audited each call: there are as many results as calls that the
    -- client proposed, and the log is longer by just the records of these results, in their order.
    pub run_audited :
        (prompt token : String) (s : Stage W) (result : PipelineResult)
        → (run py codec pipeline context stamps prompt token s).0 ≡ ok result
        → ((run py codec pipeline context stamps prompt token s).1.inner.log.lines
            ≡ s.inner.log.lines ++ trail result.tool_call_results)
          × (length result.tool_call_results ≡ length pipeline.llm_client.scripted_tool_calls)
    unfolding run
    run_audited prompt token s result h =
        let inbound = handle_inbound py prompt context token s.gateway in
        elim (Result-cases inbound.0) [
          | inr (e, refused) ↦ absurd (ground arith)
          | inl (clean, passed) ↦
              elim (Result-cases (pipeline.guardrail.inspect_input clean context)) [
                | inr (e, rejected) ↦ absurd (ground arith)
                | inl (prompt', inspected) ↦
                    let told : (reason py codec pipeline context stamps prompt' s.inner).0
                        ≡ ok result =
                      ground arith in
                    ground (arith, reason-written prompt' s.inner result told)
              ]
        ]
