-- ===== src/Examples/Logged.antt =====
-- The records that the calls of run_demo_l2.py add to the audit log.
use compliance_framework.Prelude.{
  ℕ, zero, suc, String, ◌<>◌, str_nat, ◌≡◌, refl, ap, subst, ◌∙◌, inl, inr, none, length,
  length-append, length-map, List, [], ◌∷◌, ok, Result-cases, Dict, arith,
}
use compliance_framework.Models.{ExecutionContext}
use compliance_framework.Runtime.{Runtime}
use compliance_framework.Audit.WormLog.{Codec, Stamp}
use compliance_framework.Audit.WormLog.Growth.{Grown, Grown-refl, Grown-trans}
use compliance_framework.Sandbox.Subprocess.{SubprocessSandbox, register}
use compliance_framework.Identity.SessionToken.{Moment, Hmac}
use compliance_framework.Gateway.{FakeLlmClient, script_tool_call, clear_scripted_calls}
use compliance_framework.Interceptor.{State, InterceptorResult}
use compliance_framework.Pipeline.{PipelineResult}
use compliance_framework.Pipeline.Trail.{run_audited}
use compliance_framework.Pipeline.Growth.{records_of, run-Grown}
use compliance_framework.Assembly.{Host, l2_pipeline}
use compliance_framework.Examples.{analyst_ctx, new_client, new_sandbox}
use compliance_framework.Examples.Recorded.{Returns, all_records}
use compliance_framework.Examples.RunDemoL2.{
  rogue_ctx, search_x, failing_backend, run_issued, run_rogue, attempt_calls,
}

module _ (py : Runtime) (codec : Codec) (hmac : Hmac) {W : Type 0} (host : Host W)
    (wall : W → Moment) where
  -- The log has grown by the records of these runs, and there are so many.
  abbrev pub Adds : State W → State W → List PipelineResult → ℕ → Type 0
  Adds s s' results n =
      Grown py codec s.log s'.log (all_records results) × (length (all_records results) ≡ n)

  run_issued_adds :
      (sandbox : SubprocessSandbox W) (client : FakeLlmClient) (stamps : ℕ → Stamp)
      (prompt : String) (context : ExecutionContext) (counts : Dict ℕ) (s : State W)
      (result : PipelineResult)
      → s.log.fault ≡ none
      → (run_issued py codec hmac host wall sandbox client stamps prompt context counts s).0
        ≡ ok result
      → Grown py codec s.log
          (run_issued py codec hmac host wall sandbox client stamps prompt context counts
            s).1.inner.log
          (records_of result.tool_call_results)
        × (length (records_of result.tool_call_results) ≡ length client.scripted_tool_calls)
  unfolding run_issued l2_pipeline
  run_issued_adds sandbox client stamps prompt context counts s result free told = (
    run-Grown py codec _ context stamps prompt _ _ result free told,
    length-map (λ (r : InterceptorResult). r.audit_record) result.tool_call_results
        ∙ (run_audited py codec _ context stamps prompt _ _ result told).1,
  )

  pub attempt_calls_add :
      (stamps : ℕ → ℕ → Stamp) (n i : ℕ) (client : FakeLlmClient) (counts : Dict ℕ) (s s' : State W)
      (results : List PipelineResult)
      → s.log.fault ≡ none
      → Returns (attempt_calls py codec hmac host wall stamps n i client counts) s results s'
      → Adds s s' results n
  unfolding attempt_calls script_tool_call clear_scripted_calls
  attempt_calls_add stamps zero i client counts s s' results free h =
      let none_yet : [] ≡ results = ground arith in
      let still : s ≡ s' = ap (λ t. t.1) h in
      rw (← none_yet, ← still) (Grown-refl py codec s.log, refl)
  attempt_calls_add stamps (suc n) i client counts s s' results free h =
      let client' =
        script_tool_call (search_x ("cb-" <> str_nat i)) (clear_scripted_calls client) in
      let sandbox = register "search_tool" "query" failing_backend new_sandbox in
      let first =
        run_issued py codec hmac host wall sandbox client' (stamps i) ("search " <> str_nat i)
          analyst_ctx counts s in
      let rest =
        attempt_calls py codec hmac host wall stamps n (suc i) client' first.1.gateway.call_counts
          first.1.inner in
      elim (Result-cases first.0) [
        | inr (e, failed) ↦ absurd (ground arith)
        | inl (result, told) ↦ elim (Result-cases rest.0) [
          | inr (e, failed) ↦ absurd (ground arith)
          | inl (more, others) ↦
              let (one, count) =
                run_issued_adds sandbox client' (stamps i) _ analyst_ctx counts s result free
                  told in
              let (many, count') =
                attempt_calls_add stamps n (suc i) client' first.1.gateway.call_counts first.1.inner
                  rest.1 more (one.fault ∙ free) (ap (λ r. (r, rest.1)) others) in
              let same : result ∷ more ≡ results = ground arith in
              let left : rest.1 ≡ s' = ground arith in
              subst (λ rs. Adds s s' rs (suc n)) same
                (
                  subst (λ (t : State W). Grown py codec s.log t.log (all_records (result ∷ more)))
                      left
                      (Grown-trans py codec s.log first.1.inner.log rest.1.log
                        (records_of result.tool_call_results) (all_records more) one many),
                  omega (
                    arith,
                    length-append (records_of result.tool_call_results) (all_records more),
                    count,
                    count',
                  ),
                )
        ]
      ]

  pub run_rogue_adds :
      (stamps : ℕ → Stamp) (s s' : State W) (rogue : PipelineResult)
      → s.log.fault ≡ none
      → Returns (run_rogue py codec hmac host wall stamps) s rogue s'
      → Grown py codec s.log s'.log (records_of rogue.tool_call_results)
        × (length (records_of rogue.tool_call_results) ≡ 1)
  unfolding run_rogue script_tool_call new_client
  run_rogue_adds stamps s s' rogue free h =
      let (grown, count) =
        run_issued_adds new_sandbox (script_tool_call (search_x "c1") new_client) stamps
          "search something" rogue_ctx [] s rogue free (ap (λ t. t.0) h) in
      (
        subst (λ (t : State W). Grown py codec s.log t.log (records_of rogue.tool_call_results))
            (ap (λ t. t.1) h) grown,
        count,
      )
