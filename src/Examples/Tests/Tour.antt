-- ===== src/Examples/Tests/Tour.antt =====
-- run_demo_l2.py, run.
use compliance_framework.Prelude.{
  ℕ, suc, true, false, ◌≡◌, refl, List, [], ◌∷◌, Result, raise, ok, pos, str_nat, str_int, map,
  if◌then◌else◌, lookup, insert, member, All, ◌==◌,
}
use compliance_framework.Models.{Value, null, bool, str_value, dump_decision}
use compliance_framework.Fixture.{runtime}
use compliance_framework.Policy.Checks.{
  approve, attribute, check_identity, has_one_of, check_patterns, check_parameter, check_parameters,
  has_text, gate_applies, check_gates, check_rate, wrap,
}
use compliance_framework.Policy.Gates.{partition}
use compliance_framework.Policy.DbRules
use compliance_framework.Policy.DbRules.{Db, empty, seed_example}
use compliance_framework.Policy.DbEngine
use compliance_framework.Hitl.{review}
use compliance_framework.Reliability.InMemory.{
  events_of, drop_old, is_open, judge, prune, reaches, failures, trip, record_outcome,
}
use compliance_framework.Reliability.Facade.{check, record_result, key_for}
use compliance_framework.Policy.StaticEngine
use compliance_framework.Sandbox.Subprocess
use compliance_framework.Sandbox.Subprocess.{SubprocessSandbox}
use compliance_framework.Audit.WormLog.{
  Codec, Stamp, log_call, append, open_log, load_last_hash, last_hash_from, verify_chain,
  verify_from, continues, chained, record_for, redact_request, hash_value, canonical,
  compute_record_hash,
}
use compliance_framework.Interceptor.{
  State, check_breaker, attempt, run_allowed, handle, evaluate_decision, settle_decision,
  run_decided, safely_resolve_action_requirements, settle_approval, resolve_action_requirements,
  seek_approval, answer, execute_sandboxed, settle_sandbox, record_circuit_breaker_outcome, finish,
  audit_and_wrap, succeeded,
}
use compliance_framework.Interceptor.Requirements.{unsupported}
use compliance_framework.Gateway.{
  authenticate, check_rate_limit, handle_inbound, call_count, to_tool_request, propose_tool_calls,
  complete,
}
use compliance_framework.Guardrails.Patterns.{
  mask, mask_with, pii_patterns, find_injection_markers, prompt_injection_patterns, matching,
}
use compliance_framework.Guardrails.RegexPii
use compliance_framework.Guardrails.Semantic
use compliance_framework.Guardrails.Semantic.{
  injection_intents, jaccard, tokenize, semantic_injection_score, best_of, improve,
}
use compliance_framework.Guardrails.Tokens.{findall, runs, to_set, intersection, union}
use compliance_framework.Identity.SessionToken.{Moment, Hmac, Issuer, Parts}
use compliance_framework.Identity.SessionToken
use compliance_framework.Pipeline.{run, reason, respond, handle_calls}
use compliance_framework.Assembly.{
  no_calls, db_engine, static_engine, approve_by_queue, in_memory, l2_interceptor, l2_pipeline,
  l2_gateway,
}
use compliance_framework.Runtime.{Runtime}
use compliance_framework.Audit.Records.{AuditRecord, payload}
use compliance_framework.Audit.Siem.{local_siem_forwarder, forward, forward_best_effort}
use compliance_framework.Audit.Dlp.{classify}
use compliance_framework.Audit.WormLog.Chain.{verified}
use compliance_framework.Audit.WormLog.Writing.{IsFaithful}
use compliance_framework.Gateway.{script_tool_call, clear_scripted_calls}
use compliance_framework.Interceptor.{breaker_denial}
use compliance_framework.Assembly.Tests.{Desk, host, desk}
use compliance_framework.Examples.{◌>>=◌, new_client, new_sandbox}
use compliance_framework.Examples.RunDemoL2
use compliance_framework.Examples.RunDemoL2.{Report}
use compliance_framework.Examples.Recorded.{all_records}
use compliance_framework.Examples.Toured.{main_audited}
use compliance_framework.Examples.Tests.{nth, writing, stamps}

-- Tokens that are issued at the time 7 expire at 907.
abbrev py : Runtime
py = record runtime { sha256 = λ text. text; int_of = λ text. ok (pos 907); dumps = λ value. "" }

-- A verifier of signatures that signs every text alike.
abbrev hmac : Hmac
hmac = record { hexdigest = λ secret message. "5191"; compare_digest = λ a b. ok (a == b) }

abbrev wall : Desk → Moment
wall w = record { seconds = w.now; rest = 5 }

abbrev attempt_stamps : ℕ → ℕ → Stamp
attempt_stamps run call = stamps (suc run) call

abbrev forwarded : Result (Result Report × State Desk) → List AuditRecord
forwarded (raise e) = []
forwarded (ok (r, s)) = elim s.log.sinks [ [] ↦ [] | sink ∷ sinks ↦ sink.forwarded ]

-- The records of the runs, which do not depend on how records are read back.
abbrev sent : List AuditRecord
unfolding run handle_inbound authenticate check_rate_limit call_count RegexPii.inspect_input
    RegexPii.inspect_output find_injection_markers matching prompt_injection_patterns mask mask_with
    pii_patterns reason respond handle_calls propose_tool_calls complete to_tool_request handle
    check_breaker attempt finish audit_and_wrap log_call append l2_gateway l2_pipeline
    l2_interceptor check in_memory is_open judge drop_old record_result succeeded insert prune
    events_of reaches failures trip record_outcome SessionToken.verify_token SessionToken.split
    SessionToken.at_dot SessionToken.verify_parts SessionToken.sign Semantic.inspect_input
    Semantic.inspect_output semantic_injection_score best_of injection_intents improve jaccard
    tokenize to_set findall runs intersection union db_engine DbEngine.evaluate DbEngine.checks
    DbRules.active_roles seed_example DbRules.tool_exists DbRules.visibility_roles
    DbRules.allowed_functions DbRules.deny_patterns DbRules.append_at DbRules.group
    DbRules.rate_limit_per_session DbRules.requires_approval DbRules.role_gates evaluate_decision
    settle_decision run_decided safely_resolve_action_requirements settle_approval
    resolve_action_requirements unsupported seek_approval answer run_allowed execute_sandboxed
    settle_sandbox record_circuit_breaker_outcome member lookup wrap check_identity attribute
    has_one_of check_parameters check_parameter check_patterns check_gates gate_applies has_text
    check_rate approve partition str_value no_calls approve_by_queue review static_engine
    Subprocess.default_implementation Subprocess.execute Subprocess.implementation
    Subprocess.settle_run StaticEngine.is_visible RunDemoL2.main RunDemoL2.tour RunDemoL2.run_rogue
    RunDemoL2.attempt_calls RunDemoL2.run_issued RunDemoL2.issue_for RunDemoL2.verify_for
    RunDemoL2.try_guardrail RunDemoL2.failing_backend open_log load_last_hash last_hash_from
    SessionToken.issue str_nat str_int Semantic.rejection classify Subprocess.register
    clear_scripted_calls verify_chain verify_from continues forward_best_effort forward ◌>>=◌
    new_client new_sandbox script_tool_call chained record_for redact_request hash_value canonical
    compute_record_hash payload breaker_denial key_for
sent = forwarded (RunDemoL2.main py writing hmac host wall (stamps 0) attempt_stamps desk)

abbrev reading : Codec
unfolding sent
reading = record {
  dump_json = λ r. r.record_id;
  validate_json = λ text.
      if text == "r0"
      then nth 0 sent
      else if text == "r1"
      then nth 1 sent
      else if text == "r2"
      then nth 2 sent
      else nth 3 sent;
}

returned :
    (s' : State Desk) × (report : Report) × (RunDemoL2.main py reading hmac host wall
        (stamps 0)
        attempt_stamps
        desk
      ≡ ok (ok report, s'))
    × All (IsFaithful py reading) (all_records (report.rogue ∷ report.attempts))
unfolding reading sent run handle_inbound authenticate check_rate_limit call_count
    RegexPii.inspect_input RegexPii.inspect_output find_injection_markers matching
    prompt_injection_patterns mask mask_with pii_patterns reason respond handle_calls
    propose_tool_calls complete to_tool_request handle check_breaker attempt finish audit_and_wrap
    log_call append l2_gateway l2_pipeline l2_interceptor check in_memory is_open judge drop_old
    record_result succeeded insert prune events_of reaches failures trip record_outcome
    SessionToken.verify_token SessionToken.split SessionToken.at_dot SessionToken.verify_parts
    SessionToken.sign Semantic.inspect_input Semantic.inspect_output semantic_injection_score
    best_of injection_intents improve jaccard tokenize to_set findall runs intersection union
    db_engine DbEngine.evaluate DbEngine.checks DbRules.active_roles seed_example
    DbRules.tool_exists DbRules.visibility_roles DbRules.allowed_functions DbRules.deny_patterns
    DbRules.append_at DbRules.group DbRules.rate_limit_per_session DbRules.requires_approval
    DbRules.role_gates evaluate_decision settle_decision run_decided
    safely_resolve_action_requirements settle_approval resolve_action_requirements unsupported
    seek_approval answer run_allowed execute_sandboxed settle_sandbox record_circuit_breaker_outcome
    member lookup wrap check_identity attribute has_one_of check_parameters check_parameter
    check_patterns check_gates gate_applies has_text check_rate approve partition str_value no_calls
    approve_by_queue review static_engine Subprocess.default_implementation Subprocess.execute
    Subprocess.implementation Subprocess.settle_run StaticEngine.is_visible RunDemoL2.main
    RunDemoL2.tour RunDemoL2.run_rogue RunDemoL2.attempt_calls RunDemoL2.run_issued
    RunDemoL2.issue_for RunDemoL2.verify_for RunDemoL2.try_guardrail RunDemoL2.failing_backend
    open_log load_last_hash last_hash_from SessionToken.issue str_nat str_int Semantic.rejection
    classify Subprocess.register clear_scripted_calls verify_chain verify_from continues
    forward_best_effort forward ◌>>=◌ new_client new_sandbox script_tool_call chained record_for
    redact_request hash_value canonical compute_record_hash payload breaker_denial key_for
returned = (
  _,
  _,
  refl,
  (
    record { full = refl; parsed = refl },
    (
      record { full = refl; parsed = refl },
      (record { full = refl; parsed = refl }, (record { full = refl; parsed = refl }, tt)),
    ),
  ),
)

main_audited_example :
    let (s', report, _, _) = returned in
    (report.chain ≡ verified 4)
    × (s'.log.sinks
        ≡ record local_siem_forwarder { forwarded = all_records (report.rogue ∷ report.attempts) }
          ∷ [])
main_audited_example =
    let (s', report, told, faithful) = returned in
    main_audited py reading hmac host wall (stamps 0) attempt_stamps desk s' report told faithful

abbrev decision_of : AuditRecord → Value
decision_of r = elim r.decision [ [] ↦ null | (key, value) ∷ more ↦ value ]

-- The first two attempts are allowed, though they fail in the sandbox; then the circuit is open.
trips : map decision_of sent ≡ bool false ∷ bool true ∷ bool true ∷ bool false ∷ []
unfolding sent run handle_inbound authenticate check_rate_limit call_count RegexPii.inspect_input
    RegexPii.inspect_output find_injection_markers matching prompt_injection_patterns mask mask_with
    pii_patterns reason respond handle_calls propose_tool_calls complete to_tool_request handle
    check_breaker attempt finish audit_and_wrap log_call append l2_gateway l2_pipeline
    l2_interceptor check in_memory is_open judge drop_old record_result succeeded insert prune
    events_of reaches failures trip record_outcome SessionToken.verify_token SessionToken.split
    SessionToken.at_dot SessionToken.verify_parts SessionToken.sign Semantic.inspect_input
    Semantic.inspect_output semantic_injection_score best_of injection_intents improve jaccard
    tokenize to_set findall runs intersection union db_engine DbEngine.evaluate DbEngine.checks
    DbRules.active_roles seed_example DbRules.tool_exists DbRules.visibility_roles
    DbRules.allowed_functions DbRules.deny_patterns DbRules.append_at DbRules.group
    DbRules.rate_limit_per_session DbRules.requires_approval DbRules.role_gates evaluate_decision
    settle_decision run_decided safely_resolve_action_requirements settle_approval
    resolve_action_requirements unsupported seek_approval answer run_allowed execute_sandboxed
    settle_sandbox record_circuit_breaker_outcome member lookup wrap check_identity attribute
    has_one_of check_parameters check_parameter check_patterns check_gates gate_applies has_text
    check_rate approve partition str_value no_calls approve_by_queue review static_engine
    Subprocess.default_implementation Subprocess.execute Subprocess.implementation
    Subprocess.settle_run StaticEngine.is_visible RunDemoL2.main RunDemoL2.tour RunDemoL2.run_rogue
    RunDemoL2.attempt_calls RunDemoL2.run_issued RunDemoL2.issue_for RunDemoL2.verify_for
    RunDemoL2.try_guardrail RunDemoL2.failing_backend open_log load_last_hash last_hash_from
    SessionToken.issue str_nat str_int Semantic.rejection classify Subprocess.register
    clear_scripted_calls verify_chain verify_from continues forward_best_effort forward ◌>>=◌
    new_client new_sandbox script_tool_call chained record_for redact_request hash_value canonical
    compute_record_hash payload breaker_denial key_for dump_decision
trips = refl
