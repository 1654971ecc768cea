-- ===== src/Examples/Tests.antt =====
-- run_demo.py, run.
mod Tour
use compliance_framework.Prelude.{
  ℕ, zero, suc, String, ◌<>◌, Bool, true, false, ◌≡◌, ◌≢◌, refl, eq_iff, ◌⊎◌, List, [], ◌∷◌, map,
  Kind, Result, ok, raise, str_nat, ◌==◌, All, none, some, Option, if◌then◌else◌,
}
use Prim.Native.String.{count}
use compliance_framework.Models.{ToolRequest, Value, bool, obj, pair}
use compliance_framework.Runtime.{Runtime}
use compliance_framework.Fixture.{runtime}
use compliance_framework.Policy.Example.{example_rules}
use compliance_framework.Audit.Records.{AuditRecord}
use compliance_framework.Audit.WormLog.{Codec, Stamp}
use compliance_framework.Interceptor.{InterceptorResult, State}
use compliance_framework.Pipeline.{PipelineResult}
use compliance_framework.Assembly.Tests.{Desk, host, desk}
use compliance_framework.Examples.RunDemo.{four_calls}
use compliance_framework.Examples.Recorded.{Returns, all_records, shown_records}
use compliance_framework.Examples.Detected.{fresh, report, main_detects}
use compliance_framework.Models.{str_value, dump_decision, dump_result}
use compliance_framework.Prelude.{lookup, insert, member}
use compliance_framework.Policy.Checks.{
  approve, attribute, check_identity, has_one_of, check_patterns, check_parameter, check_parameters,
  has_text, gate_applies, check_gates, check_rate, wrap,
}
use compliance_framework.Policy.Gates.{partition}
use compliance_framework.Policy.StaticEngine
use compliance_framework.Hitl.{review, set_decision}
use compliance_framework.Identity.StaticBearer.{verify}
use compliance_framework.Sandbox.Subprocess
use compliance_framework.Audit.Records.{payload}
use compliance_framework.Audit.WormLog.{
  log_call, append, chained, record_for, redact_request, hash_value, canonical, compute_record_hash,
}
use compliance_framework.Interceptor.{
  check_breaker, attempt, run_allowed, handle, evaluate_decision, settle_decision, run_decided,
  safely_resolve_action_requirements, settle_approval, resolve_action_requirements, seek_approval,
  answer, execute_sandboxed, settle_sandbox, record_circuit_breaker_outcome, finish, audit_and_wrap,
}
use compliance_framework.Audit.WormLog.Writing.{IsFaithful}
use compliance_framework.Interceptor.Requirements.{unsupported}
use compliance_framework.Gateway.{
  script_tool_call, authenticate, check_rate_limit, handle_inbound, call_count, to_tool_request,
  propose_tool_calls, complete,
}
use compliance_framework.Guardrails.Patterns.{
  mask, mask_with, pii_patterns, find_injection_markers, prompt_injection_patterns, matching,
}
use compliance_framework.Guardrails.RegexPii
use compliance_framework.Pipeline.{run, reason, respond, handle_calls}
use compliance_framework.Assembly.{
  no_calls, static_engine, approve_by_queue, l1_interceptor, l1_pipeline, l1_gateway,
}
use compliance_framework.Examples.{◌>>=◌, new_client, new_sandbox, new_queue}
use compliance_framework.Examples.RunDemo.{main, run_scripted, decide, last_request}

-- Of a record, whether its call was allowed.
abbrev allowed_text : Value → String
allowed_text
      (obj (
        pair a b
          (pair c d (pair e f (pair g h (pair k l (pair m (obj (pair n (bool allowed) o)) p))))))) =
    if allowed then "allowed" else "denied"
allowed_text value = "other"

-- Nothing is hashed, so that no two texts collide.
abbrev py : Runtime
py = record runtime { sha256 = λ text. text; dumps = allowed_text }

-- A log of identifiers.
abbrev writing : Codec
writing = record {
  dump_json = λ r. r.record_id;
  validate_json = λ text. raise (record { kind = Kind.other_error; message = "invalid JSON" });
}

abbrev name : ℕ → String
name zero = "r0"
name (suc zero) = "r1"
name (suc (suc zero)) = "r2"
name (suc (suc (suc n))) = "r3"

abbrev stamps : ℕ → ℕ → Stamp
stamps run call = record { record_id = name run; timestamp = "2026-01-01T00:00:00" }

abbrev edit : String → Result String
edit line = ok (line <> "*")

abbrev start : State Desk
start = fresh py writing host example_rules edit desk

-- The records of the calls, which do not depend on how records are read back.
abbrev written : List AuditRecord
unfolding run handle_inbound authenticate check_rate_limit call_count RegexPii.inspect_input
    RegexPii.inspect_output find_injection_markers matching prompt_injection_patterns mask mask_with
    pii_patterns reason respond handle_calls propose_tool_calls complete to_tool_request handle
    check_breaker attempt finish audit_and_wrap log_call append l1_gateway verify l1_pipeline
    StaticEngine.evaluate StaticEngine.checks StaticEngine.check_tool evaluate_decision
    settle_decision run_decided safely_resolve_action_requirements settle_approval
    resolve_action_requirements unsupported seek_approval answer run_allowed execute_sandboxed
    settle_sandbox record_circuit_breaker_outcome member lookup wrap check_identity attribute
    has_one_of check_parameters check_parameter check_patterns check_gates gate_applies has_text
    check_rate approve partition str_value no_calls l1_interceptor approve_by_queue review
    static_engine Subprocess.default_implementation Subprocess.execute Subprocess.implementation
    Subprocess.settle_run StaticEngine.is_visible four_calls run_scripted ◌>>=◌ decide last_request
    set_decision insert new_client new_sandbox new_queue script_tool_call chained record_for
    redact_request hash_value canonical compute_record_hash payload
written = shown_records (four_calls py writing host example_rules edit stamps start).0

abbrev nth : ℕ → List AuditRecord → Result AuditRecord
nth n [] = raise (record { kind = Kind.other_error; message = "no record" })
nth zero (r ∷ rs) = ok r
nth (suc n) (r ∷ rs) = nth n rs

-- The record with its decision flipped.
abbrev flipped : AuditRecord → AuditRecord
flipped r = record r { decision = ("allowed", bool true) ∷ [] }

abbrev reading : Codec
unfolding written
reading = record {
  dump_json = λ r. r.record_id;
  validate_json = λ text.
      if text == "r0"
      then nth 0 written
      else if text == "r1"
      then nth 1 written
      else if text == "r1*"
      then (elim (nth 1 written) [ ok r ↦ ok (flipped r) | raise e ↦ raise e ])
      else if text == "r2"
      then nth 2 written
      else nth 3 written;
}

apart : (a b : String) → (a == b) ≡ false → a ≢ b
apart a b differ e = let same = (eq_iff a b).1 e in cc

-- The calls return, and the second line is changed.
returned :
    (s' : State Desk) × (shown : List PipelineResult) × (raw : ToolRequest) × (r0 : AuditRecord)
    × (r1 : AuditRecord) × (more : List AuditRecord) × Returns
        (four_calls py reading host example_rules edit stamps)
        start
        (shown, raw)
        s'
    × (all_records shown ≡ r0 ∷ r1 ∷ more)
    × All (IsFaithful py reading) (r0 ∷ r1 ∷ more)
    × (edit (reading.dump_json r1) ≡ ok "r1*")
    × (reading.validate_json "r1*" ≡ ok (flipped r1))
    × ((flipped r1).record_hash ≡ r1.record_hash)
    × (compute_record_hash py r0.record_hash (flipped r1)
        ≢ compute_record_hash py r0.record_hash r1)
unfolding reading written run handle_inbound authenticate check_rate_limit call_count
    RegexPii.inspect_input RegexPii.inspect_output find_injection_markers matching
    prompt_injection_patterns mask mask_with pii_patterns reason respond handle_calls
    propose_tool_calls complete to_tool_request handle check_breaker attempt finish audit_and_wrap
    log_call append l1_gateway verify l1_pipeline StaticEngine.evaluate StaticEngine.checks
    StaticEngine.check_tool evaluate_decision settle_decision run_decided
    safely_resolve_action_requirements settle_approval resolve_action_requirements unsupported
    seek_approval answer run_allowed execute_sandboxed settle_sandbox record_circuit_breaker_outcome
    member lookup wrap check_identity attribute has_one_of check_parameters check_parameter
    check_patterns check_gates gate_applies has_text check_rate approve partition str_value no_calls
    l1_interceptor approve_by_queue review static_engine Subprocess.default_implementation
    Subprocess.execute Subprocess.implementation Subprocess.settle_run StaticEngine.is_visible
    four_calls run_scripted ◌>>=◌ decide last_request set_decision insert new_client new_sandbox
    new_queue script_tool_call chained record_for redact_request hash_value canonical
    compute_record_hash payload dump_decision dump_result
returned = (
  _,
  _,
  _,
  _,
  _,
  _,
  refl,
  refl,
  (
    record { full = refl; parsed = refl },
    (
      record { full = refl; parsed = refl },
      (record { full = refl; parsed = refl }, (record { full = refl; parsed = refl }, tt)),
    ),
  ),
  refl,
  refl,
  refl,
  apart _ _ refl,
)

main_detects_example :
    let (s', shown, raw, _, _, _, _, _, _, _, _, _, _) = returned in
    (s'' : State Desk) × (main py reading host example_rules edit stamps desk
      ≡ ok (ok (report py reading host example_rules edit shown raw), s''))
main_detects_example =
    let (s', shown, raw, r0, r1, more, returns, split, faithful, edited, parsed, same, other) =
      returned in
    main_detects py reading host example_rules edit stamps desk s' shown raw r0 r1 (flipped r1) more
      "r1*" returns split faithful edited refl parsed same other
