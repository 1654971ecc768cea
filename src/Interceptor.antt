-- ===== src/Interceptor.antt =====
-- interceptor.py. The policy engine, the sandbox, the approval callback and the backend of the
-- circuit breaker act on the world `W`; the audit log is the logger beside it.
mod Tests
mod Parts
pub mod Requirements
pub mod Permission
pub mod Trail
pub mod Growth
pub mod Concurrent
use compliance_framework.Prelude.{
  Task, wait_for, ℕ, ◌-◌, String, ◌<>◌, Bool, true, false, not, ◌&&◌, Option, none, some, eqb,
  member, List, [], ◌∷◌, ℤ, pos, Kind, Exn, is_timeout, is_exception, Result, ok, raise, Exec,
  if◌then◌else◌, leb_ℤ,
}
use mathlib.Core.Option
pub use compliance_framework.Interceptor.Parts.*
use compliance_framework.Models.{
  ExecutionContext, ToolRequest, PolicyDecision, decide_as, SandboxResult, dump_result, repr_texts,
}
use compliance_framework.Runtime.{Runtime}
use compliance_framework.Reliability.Facade.{BackendOps, check, record_result}
use compliance_framework.Audit.Records.{AuditRecord}
use compliance_framework.Audit.WormLog.{Codec, Logger, Stamp, log_call}
use compliance_framework.Interceptor.Requirements.{unsupported}

-- the `except` clauses of `_evaluate_decision`
unfoldable pub settle_decision : Result PolicyDecision → Result PolicyDecision
settle_decision (ok d) = ok d
settle_decision (raise e) =
    if is_timeout e
    then ok (decide_as false "policy engine timeout: fail-closed")
    else if is_exception e
    then ok (decide_as false ("policy engine failure: fail-closed (" <> e.message <> ")"))
    else raise e

-- the `except` clause of `_safely_resolve_action_requirements`
unfoldable pub settle_approval : Result PolicyDecision → Result PolicyDecision
settle_approval (ok d) = ok d
settle_approval (raise e) =
    if is_exception e
    then ok (decide_as false ("approval resolution failure: fail-closed (" <> e.message <> ")"))
    else raise e

-- the answer of the approval callback
unfoldable pub answer : PolicyDecision → Result Bool → Result PolicyDecision
answer d (raise e) = raise e
answer d (ok false) = ok (decide_as false "approval required but not granted")
answer d (ok true) = ok (decide_as true (d.reason <> "; human-approved"))

-- the `except` clause of `_execute_sandboxed`
unfoldable pub settle_sandbox : ℕ → Result SandboxResult → Result SandboxResult
settle_sandbox duration (ok r) = ok r
settle_sandbox duration (raise e) =
    if is_exception e
    then ok (record {
      stdout = "";
      stderr = e.message;
      exit_code = pos 1;
      duration_ms = duration;
      timed_out = false;
    })
    else raise e

-- `exit_code == 0 and not timed_out`
unfoldable pub succeeded : SandboxResult → Bool
succeeded r = leb_ℤ r.exit_code (pos 0) && leb_ℤ (pos 0) r.exit_code && not r.timed_out

-- the decision of `handle` while the circuit is open
unfoldable pub breaker_denial : ExecutionContext → ToolRequest → PolicyDecision
breaker_denial context request = decide_as false (
    "circuit breaker open for agent '" <> context.agent_id <> "' tool '" <> request.tool_name
    <> "': too many recent failures")

module _ (py : Runtime) {W : Type 0} (i : Interceptor W) where
  unfoldable pub evaluate_decision : ExecutionContext → ToolRequest → Exec W PolicyDecision
  evaluate_decision context request w =
      let (r, w') = wait_for i.decision_timeout_ms (i.policy_engine context request) w in
      (settle_decision r, w')

  -- `_resolve_action_requirements`, once no requirement is unsupported
  unfoldable pub seek_approval :
      ExecutionContext → ToolRequest → PolicyDecision → Exec W PolicyDecision
  seek_approval context request d w =
      if member "human_approval" d.action_requirements
      then (elim i.approval_callback [
        | none ↦ (ok (decide_as false "approval required but no approval_callback configured"), w)
        | some callback ↦
            let (approved, w') = callback context request d w in (answer d approved, w')
      ])
      else (ok d, w)

  unfoldable pub resolve_action_requirements :
      ExecutionContext → ToolRequest → PolicyDecision → Exec W PolicyDecision
  resolve_action_requirements context request d w = elim (unsupported d.action_requirements) [
    | [] ↦ seek_approval context request d w
    | x ∷ xs ↦ (
      ok (decide_as false ("unsupported action requirement(s): " <> repr_texts py.repr (x ∷ xs))),
      w,
    )
  ]

  unfoldable pub safely_resolve_action_requirements :
      ExecutionContext → ToolRequest → PolicyDecision → Exec W PolicyDecision
  safely_resolve_action_requirements context request d w =
      let (r, w') = resolve_action_requirements context request d w in (settle_approval r, w')

  unfoldable pub execute_sandboxed : ExecutionContext → ToolRequest → Exec W SandboxResult
  execute_sandboxed context request w =
      let (r, w') = i.sandbox request context w in (settle_sandbox (i.clock w' - i.clock w) r, w')

  unfoldable pub record_circuit_breaker_outcome :
      ExecutionContext → ToolRequest → SandboxResult → Exec W (Unit {0})
  record_circuit_breaker_outcome context request result w = elim i.circuit_breaker [
    | none ↦ (ok tt, w)
    | some breaker ↦ record_result breaker context.agent_id request.tool_name (succeeded result) w
  ]

  -- the rest of the `try` block of `handle`, from its last `if`
  unfoldable pub run_allowed : ExecutionContext → ToolRequest → PolicyDecision → W → Progress × W
  run_allowed context request d w =
      let (r, w') = execute_sandboxed context request w in
      elim r [
        | raise e ↦ (record { decision = d; sandbox_result = none; pending = some e }, w')
        | ok result ↦
            let (recorded, w'') = record_circuit_breaker_outcome context request result w' in
            (
              record {
                decision = d;
                sandbox_result = some result;
                pending = elim recorded [ ok _ ↦ none | raise e ↦ some e ];
              },
              w'',
            )
      ]

  -- the rest of the `try` block, from its first `if`
  unfoldable pub run_decided : ExecutionContext → ToolRequest → PolicyDecision → W → Progress × W
  run_decided context request d w =
      if d.allowed
      then (let (r, w') = safely_resolve_action_requirements context request d w in
          elim r [
            | raise e ↦ (record { decision = d; sandbox_result = none; pending = some e }, w')
            | ok resolved ↦
                if resolved.allowed
                then run_allowed context request resolved w'
                else (record { decision = resolved; sandbox_result = none; pending = none }, w')
          ])
      else (record { decision = d; sandbox_result = none; pending = none }, w)

  -- the `try` block of `handle`
  unfoldable pub attempt : ExecutionContext → ToolRequest → W → Progress × W
  attempt context request w =
      let (r, w') = evaluate_decision context request w in
      elim r [
        | raise e ↦ (
          record {
            decision = decide_as false "unresolved: interceptor did not complete";
            sandbox_result = none;
            pending = some e;
          },
          w',
        )
        | ok d ↦ run_decided context request d w'
      ]

  -- the circuit breaker's answer, `true` where there is no breaker
  unfoldable pub check_breaker : ExecutionContext → ToolRequest → Exec W Bool
  check_breaker context request w = elim i.circuit_breaker [
    | none ↦ (ok true, w)
    | some breaker ↦ check breaker context.agent_id request.tool_name w
  ]

  module _ (codec : Codec) where
    unfoldable pub audit_and_wrap :
        Stamp
        → ExecutionContext
        → ToolRequest
        → PolicyDecision
        → Option SandboxResult
        → Exec Logger InterceptorResult
    audit_and_wrap stamp context request d result l =
        let (r, l') = log_call py codec stamp context request d (Option.map dump_result result) l in
        elim r [
          | raise e ↦ (raise e, l')
          | ok written ↦ (
            ok (record {
              allowed = d.allowed;
              decision = d;
              sandbox_result = result;
              audit_record = written;
            }),
            l',
          )
        ]

    -- the `finally` block: an exception of its own replaces the pending one
    unfoldable pub finish :
        Stamp
        → ExecutionContext
        → ToolRequest
        → Progress × W
        → Logger
        → Result InterceptorResult × State W
    finish stamp context request (p, w) l =
        let (r, l') = audit_and_wrap stamp context request p.decision p.sandbox_result l in
        let s : State W = record { log = l'; world = w } in
        elim r [
          | raise e ↦ (raise e, s)
          | ok result ↦ (elim p.pending [ none ↦ ok result | some e ↦ raise e ], s)
        ]

    unfoldable pub handle :
        Stamp → ExecutionContext → ToolRequest → Exec (State W) InterceptorResult
    handle stamp context request s =
        let (closed, w) = check_breaker context request s.world in
        elim closed [
          | raise e ↦ (raise e, record { log = s.log; world = w })
          | ok true ↦ finish stamp context request (attempt context request w) s.log
          | ok false ↦
              let (r, l) =
                audit_and_wrap stamp context request (breaker_denial context request) none s.log in
              (r, record { log = l; world = w })
        ]
