-- ===== src/Interceptor/Tests.antt =====
-- Calls through the interceptor, in a world that counts the runs of the sandbox.
use compliance_framework.Prelude.{
  ℕ, ◌+◌, Bool, true, false, ◌≡◌, refl, Option, none, some, [], ◌∷◌, Kind, Result, ok, raise, Exec,
  pos, member,
}
use compliance_framework.Models.{
  ExecutionContext, ToolRequest, PolicyDecision, decide_as, SandboxResult,
}
use compliance_framework.Fixture.{runtime, engineer, deploy}
use compliance_framework.Reliability.Facade.{BackendOps}
use compliance_framework.Audit.WormLog.{Codec, Logger, Stamp, genesis_hash}
use compliance_framework.Interceptor.{
  Interceptor, State, settle_decision, settle_approval, answer, settle_sandbox, evaluate_decision,
  seek_approval, resolve_action_requirements, safely_resolve_action_requirements, execute_sandboxed,
  record_circuit_breaker_outcome, run_allowed, run_decided, attempt, check_breaker, handle,
}
use compliance_framework.Interceptor.Requirements.{unsupported}
use compliance_framework.Interceptor.Permission.{
  IsCleared, attempt_sandboxed, attempt_fails_closed, attempt_cancelled,
}
use compliance_framework.Interceptor.Trail.{HasEntry, outcome, handle_audited}

abbrev outcome_ok : SandboxResult
outcome_ok = record {
  stdout = "done";
  stderr = "";
  exit_code = pos 0;
  duration_ms = 3;
  timed_out = false;
}

abbrev pending : PolicyDecision
pending = record (decide_as true "approved") { action_requirements = "human_approval" ∷ [] }

abbrev answering : Result PolicyDecision → Result Bool → Option (BackendOps ℕ) → Interceptor ℕ
answering decision human breaker = record {
  policy_engine = λ context request limit w. (some decision, w);
  sandbox = λ request context w. (ok outcome_ok, w + 1);
  approval_callback = some (λ context request d w. (human, w));
  decision_timeout_ms = 50;
  circuit_breaker = breaker;
  clock = λ w. w;
}

abbrev pub granting : Interceptor ℕ
granting = answering (ok pending) (ok true) none

abbrev denying : Interceptor ℕ
denying = answering (ok (decide_as false "tool not permitted")) (ok true) none

abbrev failing : Interceptor ℕ
failing = answering (raise (record { kind = Kind.other_error; message = "boom" })) (ok true) none

abbrev cancelling : Interceptor ℕ
cancelling = answering (ok pending) (raise (record { kind = Kind.cancelled; message = "" })) none

granted : (attempt runtime granting engineer deploy 0).0.sandbox_result ≡ some outcome_ok
unfolding attempt evaluate_decision settle_decision run_decided safely_resolve_action_requirements
    settle_approval resolve_action_requirements unsupported seek_approval answer run_allowed
    execute_sandboxed settle_sandbox record_circuit_breaker_outcome member
granted = refl

attempt_sandboxed_example :
    (d : PolicyDecision) × (w' : ℕ) × (resolved : PolicyDecision) × (w'' : ℕ) × IsCleared runtime
      granting engineer deploy 0 d w' resolved w''
    × (attempt runtime granting engineer deploy 0
        ≡ run_allowed runtime granting engineer deploy resolved w'')
attempt_sandboxed_example = attempt_sandboxed runtime granting engineer deploy 0 outcome_ok granted

attempt_fails_closed_example :
    ((attempt runtime failing engineer deploy 0).0.decision.allowed ≡ false)
    × ((attempt runtime failing engineer deploy 0).0.sandbox_result ≡ none)
    × ((attempt runtime failing engineer deploy 0).0.pending ≡ none)
    × ((attempt runtime failing engineer deploy 0).1 ≡ 0)
attempt_fails_closed_example =
    attempt_fails_closed runtime failing engineer deploy 0
      (record { kind = Kind.other_error; message = "boom" }) refl refl

denied : (attempt runtime denying engineer deploy 0).0.decision.allowed ≡ false
unfolding attempt evaluate_decision settle_decision run_decided
denied = refl

abbrev pub counting_twice : ToolRequest → ExecutionContext → Exec ℕ SandboxResult
counting_twice request context w = (ok outcome_ok, w + 2)

attempt_cancelled_example : (attempt runtime cancelling engineer deploy 0).0 ≡ record {
  decision = pending;
  sandbox_result = none;
  pending = some (record { kind = Kind.cancelled; message = "" });
}
unfolding member
attempt_cancelled_example =
    attempt_cancelled runtime cancelling engineer deploy 0 pending
      (record { kind = Kind.cancelled; message = "" })
      (λ context request d w. (raise (record { kind = Kind.cancelled; message = "" }), w)) refl refl
      (refl, tt) refl refl refl refl

abbrev pub codec : Codec
codec = record {
  dump_json = λ r. r.record_id;
  validate_json = λ text. raise (record { kind = Kind.other_error; message = "invalid JSON" });
}

abbrev pub stamp : Stamp
stamp = record { record_id = "r1"; timestamp = "2026-01-01T00:00:00" }

abbrev new_log : Logger
new_log = record {
  lines = [];
  fault = none;
  redact_parameters = true;
  sinks = [];
  prev_hash = genesis_hash;
}

abbrev pub s0 : State ℕ
s0 = record { log = new_log; world = 0 }

closed : (check_breaker runtime granting engineer deploy 0).0 ≡ ok true
unfolding check_breaker
closed = refl

handle_audited_example :
    let (p, w) =
      attempt runtime granting engineer deploy
        (check_breaker runtime granting engineer deploy 0).1 in
    let (told, s) = handle runtime granting codec stamp engineer deploy s0 in
    (told ≡ outcome runtime codec stamp engineer deploy new_log p)
    × HasEntry runtime codec stamp engineer deploy new_log s.log p.decision p.sandbox_result
    × (s.world ≡ w)
handle_audited_example = handle_audited runtime codec stamp engineer deploy granting s0 refl closed
