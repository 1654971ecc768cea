-- ===== src/Pipeline/Growth.antt =====
-- A run of the pipeline keeps the audit log verifiable.
use compliance_framework.Prelude.{
  ℕ, suc, ◌+◌, String, ◌≡◌, ap, subst, ◌∙◌, inl, inr, none, All, length, length-map, List, [], ◌∷◌,
  map, ok, Result-cases, arith,
}
use compliance_framework.Models.{ExecutionContext}
use compliance_framework.Runtime.{Runtime}
use compliance_framework.Audit.Records.{AuditRecord}
use compliance_framework.Audit.WormLog.{Codec, Stamp, verify_chain}
use compliance_framework.Audit.WormLog.Chain.{verified}
use compliance_framework.Audit.WormLog.Writing.{IsFaithful, IsSound}
use compliance_framework.Audit.WormLog.Growth.{Grown, Grown-refl, Grown-trans, Grown-verified}
use compliance_framework.Gateway.{
  ProposedToolCall, to_tool_request, handle_inbound, propose_tool_calls,
}
use compliance_framework.Interceptor.{InterceptorResult, State, handle}
use compliance_framework.Interceptor.Growth.{handle-Grown}
use compliance_framework.Pipeline.{
  Pipeline, Stage, PipelineResult, handle_calls, respond, reason, run,
}

-- The audit records of results.
abbrev pub records_of : List InterceptorResult → List AuditRecord
records_of results = map (λ (r : InterceptorResult). r.audit_record) results

module _ (py : Runtime) (codec : Codec) {W : Type 0} (pipeline : Pipeline W)
    (context : ExecutionContext) (stamps : ℕ → Stamp) where
  handle_calls-Grown :
      (calls : List ProposedToolCall) (n : ℕ) (s : State W) (results : List InterceptorResult)
      → s.log.fault ≡ none
      → (handle_calls py codec pipeline context stamps n calls s).0 ≡ ok results
      → Grown py codec s.log
          (handle_calls py codec pipeline context stamps n calls s).1.log
          (records_of results)
  unfolding handle_calls
  handle_calls-Grown [] n s results free h =
      let none_yet : [] ≡ results = ground arith in
      subst (λ rs. Grown py codec s.log s.log (records_of rs)) none_yet (Grown-refl py codec s.log)
  handle_calls-Grown (call ∷ calls) n s results free h =
      let first =
        handle py pipeline.interceptor codec (stamps n) context (to_tool_request call) s in
      let rest = handle_calls py codec pipeline context stamps (suc n) calls first.1 in
      elim (Result-cases first.0) [
        | inr (e, failed) ↦ absurd (ground arith)
        | inl (result, told) ↦ elim (Result-cases rest.0) [
          | inr (e, failed) ↦ absurd (ground arith)
          | inl (more, others) ↦
              let one =
                handle-Grown py pipeline.interceptor codec (stamps n) context (to_tool_request call)
                  s result free told in
              let all =
                Grown-trans py codec s.log first.1.log rest.1.log (result.audit_record ∷ [])
                  (records_of more) one
                  (handle_calls-Grown calls (suc n) first.1 more (one.fault ∙ free) others) in
              let same : result ∷ more ≡ results = ground arith in
              let left : (handle_calls py codec pipeline context stamps n (call ∷ calls) s).1
                  ≡ rest.1 =
                ground arith in
              rw (left, ← same) all
        ]
      ]

  reason-Grown :
      (prompt : String) (s : State W) (result : PipelineResult)
      → s.log.fault ≡ none
      → (reason py codec pipeline context stamps prompt s).0 ≡ ok result
      → Grown py codec s.log
          (reason py codec pipeline context stamps prompt s).1.log
          (records_of result.tool_call_results)
  unfolding reason respond propose_tool_calls
  reason-Grown prompt s result free h =
      let calls = pipeline.llm_client.scripted_tool_calls in
      let handled = handle_calls py codec pipeline context stamps 0 calls s in
      elim (Result-cases handled.0) [
        | inr (e, failed) ↦ absurd (ground arith)
        | inl (results, told) ↦
            let same : results ≡ result.tool_call_results = ground arith in
            let left : (reason py codec pipeline context stamps prompt s).1 ≡ handled.1 =
              ground arith in
            rw (left, ← same) (handle_calls-Grown calls 0 s results free told)
      ]

  -- A run that returns a result adds the records of its results to the log, as a chain that goes on
  -- from where the log stood.
  pub run-Grown :
      (prompt token : String) (s : Stage W) (result : PipelineResult)
      → s.inner.log.fault ≡ none
      → (run py codec pipeline context stamps prompt token s).0 ≡ ok result
      → Grown py codec s.inner.log
          (run py codec pipeline context stamps prompt token s).1.inner.log
          (records_of result.tool_call_results)
  unfolding run
  run-Grown prompt token s result free h =
      let inbound = handle_inbound py prompt context token s.gateway in
      elim (Result-cases inbound.0) [
        | inr (e, refused) ↦ absurd (ground arith)
        | inl (clean, passed) ↦
            elim (Result-cases (pipeline.guardrail.inspect_input clean context)) [
              | inr (e, rejected) ↦ absurd (ground arith)
              | inl (prompt', inspected) ↦
                  let told : (reason py codec pipeline context stamps prompt' s.inner).0
                      ≡ ok result =
                    ground arith in
                  rw (passed, inspected, run) (reason-Grown prompt' s.inner result free told)
            ]
      ]

  -- A run keeps the log verifiable. Where the file holds a chain whose last hash the logger remembers,
  -- and can be written, and a run returns a result whose records are read back from their lines,
  -- `verify_chain` accepts the file after the run, and counts the old records and one for each result.
  pub run-verified :
      (prompt token : String) (s : Stage W) (result : PipelineResult) (rs : List AuditRecord)
      → s.inner.log.fault ≡ none
      → (run py codec pipeline context stamps prompt token s).0 ≡ ok result
      → IsSound py codec s.inner.log rs
      → All (IsFaithful py codec) (records_of result.tool_call_results)
      → verify_chain py codec
          (run py codec pipeline context stamps prompt token s).1.inner.log.lines
        ≡ ok (verified (length rs + length result.tool_call_results))
  run-verified prompt token s result rs free told sound faithful =
      Grown-verified py codec s.inner.log
        (run py codec pipeline context stamps prompt token s).1.inner.log rs
        (records_of result.tool_call_results) sound (run-Grown prompt token s result free told)
        faithful
      ∙ ap (λ n. ok (verified (length rs + n)))
          (length-map (λ (r : InterceptorResult). r.audit_record) result.tool_call_results)
