-- ===== src/Interceptor/Growth.antt =====
-- What a call adds to the audit log, as a chain.
use compliance_framework.Prelude.{
  true, false, ◌≡◌, sym, subst, inl, inr, none, Option, Option-cases, [], ◌∷◌, ok, Result-cases,
  arith,
}
use compliance_framework.Models.{ExecutionContext, ToolRequest, PolicyDecision, SandboxResult}
use compliance_framework.Runtime.{Runtime}
use compliance_framework.Audit.WormLog.{Codec, Logger, Stamp, append, log_call}
use compliance_framework.Audit.WormLog.Writing.{chained-Continues}
use compliance_framework.Audit.WormLog.Growth.{Grown}
use compliance_framework.Interceptor.{
  Interceptor, InterceptorResult, State, Progress, attempt, check_breaker, audit_and_wrap, finish,
  handle,
}
use compliance_framework.Interceptor.Trail.{entry, audit_and_wrap-HasEntry}

module _ (py : Runtime) {W : Type 0} (i : Interceptor W) (codec : Codec) (stamp : Stamp)
    (context : ExecutionContext) (request : ToolRequest) where
  pub audit_and_wrap-Grown :
      (d : PolicyDecision) (result : Option SandboxResult) (l : Logger)
      → l.fault ≡ none
      → Grown py codec l
          (audit_and_wrap py i codec stamp context request d result l).1
          (entry py codec stamp context request l d result ∷ [])
  unfolding audit_and_wrap log_call append
  audit_and_wrap-Grown d result l free = record {
    lines = ground arith;
    chain = (chained-Continues py l.prev_hash _, tt);
    remembers = ground arith;
    sinks = ground arith;
    fault = ground arith;
    redact_parameters = ground arith;
  }

  -- The record of an answer is the one that was written.
  wrapped :
      (d : PolicyDecision) (result : Option SandboxResult) (l : Logger) (r : InterceptorResult)
      → (audit_and_wrap py i codec stamp context request d result l).0 ≡ ok r
      → l.fault ≡ none
      → Grown py codec l
          (audit_and_wrap py i codec stamp context request d result l).1
          (r.audit_record ∷ [])
  wrapped d result l r told free =
      let (answered, _) =
        audit_and_wrap-HasEntry py codec stamp context request i d result l free in
      let same : entry py codec stamp context request l d result ≡ r.audit_record = ground arith in
      subst
        (λ x.
          Grown py codec l (audit_and_wrap py i codec stamp context request d result l).1 (x ∷ []))
        same (audit_and_wrap-Grown d result l free)

  pub finish_wrapped :
      (p : Progress) (w : W) (l : Logger)
      → let a = audit_and_wrap py i codec stamp context request p.decision p.sandbox_result l in
        let (answer, s) = finish py i codec stamp context request (p, w) l in
        (s.log ≡ a.1) × ((result : InterceptorResult) → answer ≡ ok result → a.0 ≡ ok result)
  unfolding finish
  finish_wrapped p w l =
      let a = audit_and_wrap py i codec stamp context request p.decision p.sandbox_result l in
      elim (Result-cases a.0) [
        | inr (e, failed) ↦ ground arith
        | inl (told, answered) ↦ elim (Option-cases p.pending) [
          | inl free ↦ ground arith
          | inr (e, left) ↦ ground arith
        ]
      ]

  finish-Grown :
      (p : Progress) (w : W) (l : Logger) (result : InterceptorResult)
      → l.fault ≡ none
      → (finish py i codec stamp context request (p, w) l).0 ≡ ok result
      → Grown py codec l
          (finish py i codec stamp context request (p, w) l).1.log
          (result.audit_record ∷ [])
  finish-Grown p w l result free h =
      let (same, told) = finish_wrapped p w l in
      subst (λ l'. Grown py codec l l' (result.audit_record ∷ [])) (sym same)
        (wrapped p.decision p.sandbox_result l result (told result h) free)

  -- A call that returns a result adds its record to the log, and nothing else.
  pub handle-Grown :
      (s : State W) (result : InterceptorResult)
      → s.log.fault ≡ none
      → (handle py i codec stamp context request s).0 ≡ ok result
      → Grown py codec s.log
          (handle py i codec stamp context request s).1.log
          (result.audit_record ∷ [])
  unfolding handle
  handle-Grown s result free h =
      let c = check_breaker py i context request s.world in
      elim (Result-cases c.0) [
        | inr (e, failed) ↦ absurd (ground arith)
        | inl (false, refused) ↦
            rw (refused, handle) (wrapped _ none s.log result (rw (refused, handle) at h) free)
        | inl (true, closed) ↦
            let (p, w) = attempt py i context request c.1 in
            rw (closed, handle) (finish-Grown p w s.log result free (rw (closed, handle) at h))
      ]
