-- ===== src/Interceptor/Trail.antt =====
-- Each call leaves one record in the audit log.
use mathlib.Core.Option
use compliance_framework.Prelude.{
  true, false, ◌≡◌, refl, none, some, Option, [], ◌∷◌, ◌++◌, Exn, Result, ok, raise, arith,
}
use compliance_framework.Models.{
  ExecutionContext, ToolRequest, PolicyDecision, SandboxResult, dump_result,
}
use compliance_framework.Runtime.{Runtime}
use compliance_framework.Audit.Records.{AuditRecord}
use compliance_framework.Audit.WormLog.{Codec, Logger, Stamp, append, chained, record_for, log_call}
use compliance_framework.Interceptor.{
  Interceptor, InterceptorResult, State, Progress, breaker_denial, attempt, check_breaker,
  audit_and_wrap, finish, handle,
}

module _ (py : Runtime) (codec : Codec) (stamp : Stamp) (context : ExecutionContext)
    (request : ToolRequest) where
  -- The record of a call, as it is written behind a log.
  abbrev pub entry : Logger → PolicyDecision → Option SandboxResult → AuditRecord
  entry l d result =
      chained py l.prev_hash
        (record_for py l.redact_parameters stamp context request d (Option.map dump_result result))

  -- What a call returns that has this decision and this sandbox result.
  abbrev pub reply : Logger → PolicyDecision → Option SandboxResult → InterceptorResult
  reply l d result = record {
    allowed = d.allowed;
    decision = d;
    sandbox_result = result;
    audit_record = entry l d result;
  }

  -- The log with the record of the call behind it.
  pub record HasEntry (l l' : Logger) (d : PolicyDecision) (result : Option SandboxResult)
      : Type 0 where
    pub lines : l'.lines ≡ l.lines ++ codec.dump_json (entry l d result) ∷ []
    pub prev_hash : l'.prev_hash ≡ (entry l d result).record_hash

  -- The exception that is pending, or the reply.
  abbrev pub outcome : Logger → Progress → Result InterceptorResult
  outcome l p = elim p.pending [
    | none ↦ ok (reply l p.decision p.sandbox_result)
    | some e ↦ raise e
  ]

  module _ {W : Type 0} (i : Interceptor W) where
    pub audit_and_wrap-HasEntry :
        (d : PolicyDecision) (result : Option SandboxResult) (l : Logger)
        → l.fault ≡ none
        → ((audit_and_wrap py i codec stamp context request d result l).0 ≡ ok (reply l d result))
          × HasEntry l (audit_and_wrap py i codec stamp context request d result l).1 d result
    unfolding audit_and_wrap log_call append
    audit_and_wrap-HasEntry d result l free =
        (ground arith, record { lines = ground arith; prev_hash = ground arith })

    finish_audits :
        (p : Progress) (w : W) (l : Logger)
        → l.fault ≡ none
        → let (answer, s') = finish py i codec stamp context request (p, w) l in
          (answer ≡ outcome l p) × HasEntry l s'.log p.decision p.sandbox_result × (s'.world ≡ w)
    unfolding finish
    finish_audits p w l free =
        let (told, written) = audit_and_wrap-HasEntry p.decision p.sandbox_result l free in
        (
          ground arith,
          record {
            lines = ground (arith, written.lines);
            prev_hash = ground (arith, written.prev_hash);
          },
          ground arith,
        )

    handle_closed :
        (s : State W)
        → (check_breaker py i context request s.world).0 ≡ ok true
        → handle py i codec stamp context request s
          ≡ finish py i codec stamp context request
              (attempt py i context request (check_breaker py i context request s.world).1)
              s.log
    unfolding handle
    handle_closed s closed = ground arith

    -- Where the breaker lets a call pass and the log can be written, `handle` writes exactly one
    -- record, of the decision and the sandbox result that the `try` block ended with, also where an
    -- exception ended it; it raises that exception, if there is one, and otherwise returns what it
    -- recorded; and the world is the one that the `try` block left.
    pub handle_audited :
        (s : State W)
        → s.log.fault ≡ none
        → (check_breaker py i context request s.world).0 ≡ ok true
        → let (p, w) =
            attempt py i context request (check_breaker py i context request s.world).1 in
          let (answer, s') = handle py i codec stamp context request s in
          (answer ≡ outcome s.log p)
          × HasEntry s.log s'.log p.decision p.sandbox_result
          × (s'.world ≡ w)
    handle_audited s free closed =
        let (p, w) = attempt py i context request (check_breaker py i context request s.world).1 in
        rw (handle_closed s closed) (finish_audits p w s.log free)

    -- Where the breaker is open and the log can be written, `handle` denies the call and records the
    -- denial, and neither the engine nor the sandbox is run: the world is the one that the check left.
    pub handle_open :
        (s : State W)
        → s.log.fault ≡ none
        → (check_breaker py i context request s.world).0 ≡ ok false
        → let d = breaker_denial context request in
          let (answer, s') = handle py i codec stamp context request s in
          (d.allowed ≡ false)
          × (answer ≡ ok (reply s.log d none))
          × HasEntry s.log s'.log d none
          × (s'.world ≡ (check_breaker py i context request s.world).1)
    unfolding handle
    handle_open s free closed =
        let d = breaker_denial context request in
        let (told, written) = audit_and_wrap-HasEntry d none s.log free in
        (
          unfold breaker_denial in refl,
          ground arith,
          record {
            lines = ground (arith, written.lines);
            prev_hash = ground (arith, written.prev_hash);
          },
          ground arith,
        )

    -- Where the check of the breaker raises an exception, `handle` raises it too, and the call leaves
    -- no record at all.
    pub handle_breaker_raises :
        (s : State W) (e : Exn)
        → (check_breaker py i context request s.world).0 ≡ raise e
        → ((handle py i codec stamp context request s).0 ≡ raise e)
          × ((handle py i codec stamp context request s).1.log ≡ s.log)
    unfolding handle
    handle_breaker_raises s e failed = ground arith
