-- ===== src/Assembly/Tests.antt =====
-- The parts put together over a world with one breaker, one approval queue and a clock.
mod Runs
use compliance_framework.Prelude.{
  ℕ, ◌+◌, ◌<◌, String, Bool, true, false, ◌≡◌, ◌≢◌, refl, ◌⊎◌, inl, inr, Option, none, some, List,
  [], ◌∷◌, Kind, Result, ok, raise, Exec, wait_for, ℤ, pos, lookup, insert, member, arith, All,
  ◌≤ℚ◌, ◌==◌,
}
use compliance_framework.Models.{str, PolicyDecision, SandboxResult, str_value}
use compliance_framework.Fixture.{runtime, engineer, deploy}
use compliance_framework.Policy.Checks.{
  approve, attribute, check_identity, has_one_of, check_patterns, check_parameter, check_parameters,
  has_text, gate_applies, check_gates, check_rate, wrap,
}
use compliance_framework.Policy.Gates.{partition}
use compliance_framework.Policy.DbRules
use compliance_framework.Policy.DbRules.{Db, empty, seed_example}
use compliance_framework.Policy.DbEngine
use compliance_framework.Policy.DbEngine.Exact as DbExact
use compliance_framework.Policy.Example.{example_rules}
use compliance_framework.Hitl.{ApprovalQueue, review}
use compliance_framework.Reliability.InMemory.{
  Config, Backend, start, events_of, drop_old, is_open, judge, prune, reaches, failures, trip,
  record_outcome,
}
use compliance_framework.Reliability.Facade.{check, record_result}
use compliance_framework.Identity.StaticBearer.{verify}
use compliance_framework.Reliability.InMemory.Window.{IsSane}
use compliance_framework.Policy.StaticEngine
use compliance_framework.Sandbox.Subprocess
use compliance_framework.Sandbox.Subprocess.{SubprocessSandbox}
use compliance_framework.Audit.WormLog.{Codec, Logger, Stamp, genesis_hash, log_call, append}
use compliance_framework.Interceptor.{
  Interceptor, State, breaker_denial, check_breaker, attempt, run_allowed, handle,
  evaluate_decision, settle_decision, run_decided, safely_resolve_action_requirements,
  settle_approval, resolve_action_requirements, seek_approval, answer, execute_sandboxed,
  settle_sandbox, record_circuit_breaker_outcome, finish, audit_and_wrap, succeeded,
}
use compliance_framework.Interceptor.Requirements.{unsupported}
use compliance_framework.Interceptor.Trail.{HasEntry, outcome, reply}
use compliance_framework.Gateway.{
  FakeLlmClient, authenticate, check_rate_limit, handle_inbound, call_count, to_tool_request,
  propose_tool_calls, complete,
}
use compliance_framework.Guardrails.Patterns.{
  mask, mask_with, pii_patterns, find_injection_markers, prompt_injection_patterns, matching,
}
use compliance_framework.Guardrails.RegexPii
use compliance_framework.Guardrails.Semantic
use compliance_framework.Guardrails.Semantic.{
  injection_intents, jaccard, tokenize, semantic_injection_score, best_of, improve,
}
use compliance_framework.Guardrails.Tokens.{findall, runs, to_set, intersection, union}
use compliance_framework.Identity.SessionToken.{Hmac, Issuer, Parts}
use compliance_framework.Identity.SessionToken
use compliance_framework.Identity.SessionToken.Binding.{joined, IsAccepted}
use compliance_framework.Pipeline.{PipelineResult, run, reason, respond, handle_calls}
use compliance_framework.Pipeline.Executed.{Executed}
use compliance_framework.Assembly
use compliance_framework.Assembly.{
  Host, IsHost, no_calls, db_engine, static_engine, approve_by_queue, in_memory, l1_interceptor,
  l2_interceptor, l1_pipeline, l2_pipeline, l1_gateway, l2_gateway, default_threshold,
  regex_guardrail, semantic_guardrail,
}
use compliance_framework.Assembly.Levels.{IsLicensed, IsGranted, l1_run, l2_run}
use compliance_framework.Assembly.Permitted.{over_db, Consent, sandboxed-Permits}
use compliance_framework.Assembly.Approved.{over_queue, Granted, sandboxed-Granted}
use compliance_framework.Assembly.Tripped.{guarded, IsBlocked, handle-guarded}

pub record Desk : Type 0 where
  pub backend : Backend
  pub queue : ApprovalQueue
  pub now : ℕ

abbrev pub host : Host Desk
host = record {
  backend = λ w. w.backend;
  put_backend = λ b w. record w { backend = b };
  queue = λ w. w.queue;
  put_queue = λ q w. record w { queue = q };
  monotonic = λ w. w.now;
}

host-IsHost : IsHost host
host-IsHost = record { backend-put = λ b w. refl; put-backend = λ w. refl; queue-put = λ q w. refl }

abbrev sandbox : SubprocessSandbox Desk
sandbox = record { implementations = []; timeout = record { ms = 5000; seconds = "5.0" } }

abbrev pub desk : Desk
desk = record {
  backend = start;
  queue = record { decisions = ("call-1", true) ∷ []; default = false; received = [] };
  now = 7;
}

abbrev l1 : Interceptor Desk
unfolding l1_interceptor
l1 = l1_interceptor host runtime sandbox example_rules

abbrev store : Db
store = seed_example empty

abbrev deployed : SandboxResult
deployed = record {
  stdout = "ok: executed deploy_tool.deploy";
  stderr = "";
  exit_code = pos 0;
  duration_ms = 0;
  timed_out = false;
}

from_store :
    (attempt runtime (over_db runtime l1 store no_calls) engineer deploy desk).0.sandbox_result
    ≡ some deployed
unfolding attempt db_engine DbEngine.evaluate DbEngine.checks DbRules.active_roles seed_example
    DbRules.tool_exists DbRules.visibility_roles DbRules.allowed_functions DbRules.deny_patterns
    DbRules.append_at DbRules.group DbRules.rate_limit_per_session DbRules.requires_approval
    DbRules.role_gates evaluate_decision settle_decision run_decided
    safely_resolve_action_requirements settle_approval resolve_action_requirements unsupported
    seek_approval answer run_allowed execute_sandboxed settle_sandbox record_circuit_breaker_outcome
    member lookup wrap check_identity attribute has_one_of check_parameters check_parameter
    check_patterns check_gates gate_applies has_text check_rate approve partition str_value no_calls
    l1 l1_interceptor approve_by_queue review static_engine Subprocess.default_implementation
    Subprocess.execute Subprocess.implementation Subprocess.settle_run StaticEngine.is_visible
from_store = refl

sandboxed-Permits_example :
    ((calls : ℤ) × (limit : ℤ) × DbExact.Permits runtime store no_calls engineer deploy calls limit)
    × Consent runtime l1 store no_calls engineer deploy desk
sandboxed-Permits_example =
    sandboxed-Permits runtime l1 store no_calls engineer deploy desk deployed from_store

from_queue :
    (attempt runtime (over_queue host l1) engineer deploy desk).0.sandbox_result ≡ some deployed
unfolding attempt StaticEngine.evaluate StaticEngine.checks StaticEngine.check_tool
    evaluate_decision settle_decision run_decided safely_resolve_action_requirements settle_approval
    resolve_action_requirements unsupported seek_approval answer run_allowed execute_sandboxed
    settle_sandbox record_circuit_breaker_outcome member lookup wrap check_identity attribute
    has_one_of check_parameters check_parameter check_patterns check_gates gate_applies has_text
    check_rate approve partition str_value no_calls l1 l1_interceptor approve_by_queue review
    static_engine Subprocess.default_implementation Subprocess.execute Subprocess.implementation
    Subprocess.settle_run StaticEngine.is_visible
from_queue = refl

sandboxed-Granted_example :
    let i = over_queue host l1 in
    (d : PolicyDecision) × (w' : Desk) × (resolved : PolicyDecision) × (w'' : Desk) × (wait_for
        l1.decision_timeout_ms
        (l1.policy_engine engineer deploy)
        desk
      ≡ (ok d, w'))
    × (d.allowed ≡ true)
    × ((member "human_approval" d.action_requirements ≡ false)
        ⊎ Granted host engineer deploy d w' w'')
    × (attempt runtime i engineer deploy desk ≡ run_allowed runtime i engineer deploy resolved w'')
sandboxed-Granted_example =
    sandboxed-Granted runtime host host-IsHost l1 engineer deploy desk deployed from_queue

abbrev settings : Config
settings = record {
  window = 60;
  threshold_num = 1;
  threshold_den = 2;
  min_samples = 1;
  cooldown = 30;
}

abbrev codec : Codec
codec = record {
  dump_json = λ r. r.record_id;
  validate_json = λ text. raise (record { kind = Kind.other_error; message = "invalid JSON" });
}

abbrev stamp : Stamp
stamp = record { record_id = "r1"; timestamp = "2026-01-01T00:00:00" }

abbrev new_log : Logger
new_log = record {
  lines = [];
  fault = none;
  redact_parameters = true;
  sinks = [];
  prev_hash = genesis_hash;
}

start-IsSane : IsSane 7 start
unfolding events_of lookup
start-IsSane = record { ordered = λ key. tt }

handle-guarded_example :
    let i = guarded host settings l1 in
    let w = (check_breaker runtime i engineer deploy desk).1 in
    let (p, w') = attempt runtime i engineer deploy w in
    let d = breaker_denial engineer deploy in
    let (told, s) =
      handle runtime i codec stamp engineer deploy (record { log = new_log; world = desk }) in
    (IsBlocked host settings engineer deploy desk
      × (told ≡ ok (reply runtime codec stamp engineer deploy new_log d none))
      × HasEntry runtime codec stamp engineer deploy new_log s.log d none
      × (s.world ≡ w))
    ⊎ ((¬ IsBlocked host settings engineer deploy desk)
        × (told ≡ outcome runtime codec stamp engineer deploy new_log p)
        × HasEntry runtime codec stamp engineer deploy new_log s.log p.decision p.sandbox_result
        × (s.world ≡ w'))
handle-guarded_example =
    handle-guarded runtime host settings l1 engineer deploy codec stamp
      (record { log = new_log; world = desk }) refl (omega arith) start-IsSane
