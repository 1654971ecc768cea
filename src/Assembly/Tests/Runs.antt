-- ===== src/Assembly/Tests/Runs.antt =====
-- Runs of the two pipelines.
use compliance_framework.Prelude.{
  ℕ, String, ◌≡◌, refl, [], ◌∷◌, ok, ℤ, lookup, insert, member, All, ◌≤ℚ◌, ◌==◌,
}
use compliance_framework.Models.{str, str_value}
use compliance_framework.Fixture.{runtime, engineer}
use compliance_framework.Policy.Checks.{
  approve, attribute, check_identity, has_one_of, check_patterns, check_parameter, check_parameters,
  has_text, gate_applies, check_gates, check_rate, wrap,
}
use compliance_framework.Policy.Gates.{partition}
use compliance_framework.Policy.DbRules
use compliance_framework.Policy.DbRules.{Db, empty, seed_example}
use compliance_framework.Policy.DbEngine
use compliance_framework.Policy.Example.{example_rules}
use compliance_framework.Hitl.{review}
use compliance_framework.Reliability.InMemory.{
  events_of, drop_old, is_open, judge, prune, reaches, failures, trip, record_outcome,
}
use compliance_framework.Reliability.Facade.{check, record_result}
use compliance_framework.Identity.StaticBearer.{verify}
use compliance_framework.Policy.StaticEngine
use compliance_framework.Sandbox.Subprocess
use compliance_framework.Sandbox.Subprocess.{SubprocessSandbox}
use compliance_framework.Audit.WormLog.{Stamp, log_call, append}
use compliance_framework.Interceptor.{
  State, check_breaker, attempt, run_allowed, handle, evaluate_decision, settle_decision,
  run_decided, safely_resolve_action_requirements, settle_approval, resolve_action_requirements,
  seek_approval, answer, execute_sandboxed, settle_sandbox, record_circuit_breaker_outcome, finish,
  audit_and_wrap, succeeded,
}
use compliance_framework.Interceptor.Requirements.{unsupported}
use compliance_framework.Gateway.{
  FakeLlmClient, authenticate, check_rate_limit, handle_inbound, call_count, to_tool_request,
  propose_tool_calls, complete,
}
use compliance_framework.Guardrails.Patterns.{
  mask, mask_with, pii_patterns, find_injection_markers, prompt_injection_patterns, matching,
}
use compliance_framework.Guardrails.RegexPii
use compliance_framework.Guardrails.Semantic
use compliance_framework.Guardrails.Semantic.{
  injection_intents, jaccard, tokenize, semantic_injection_score, best_of, improve,
}
use compliance_framework.Guardrails.Tokens.{findall, runs, to_set, intersection, union}
use compliance_framework.Identity.SessionToken.{Hmac, Moment, Issuer, Parts}
use compliance_framework.Identity.SessionToken
use compliance_framework.Identity.SessionToken.Binding.{joined, IsAccepted}
use compliance_framework.Pipeline.{PipelineResult, run, reason, respond, handle_calls}
use compliance_framework.Pipeline.Executed.{Executed, ExecutedFrom}
use compliance_framework.Assembly.{
  no_calls, db_engine, static_engine, approve_by_queue, in_memory, l1_interceptor, l2_interceptor,
  l1_pipeline, l2_pipeline, l1_gateway, l2_gateway, default_threshold,
}
use compliance_framework.Assembly.Levels.{IsLicensed, IsGranted, l1_run, l2_run}
use compliance_framework.Assembly.Tests.{
  Desk, host, host-IsHost, sandbox, desk, store, settings, codec, stamp, new_log,
}

abbrev client : FakeLlmClient
client = record {
  scripted_tool_calls =
      record {
        tool_name = "deploy_tool";
        function_name = "deploy";
        parameters = ("environment", str "staging") ∷ [];
        call_id = "call-1";
      }
      ∷ [];
  final_response = "acknowledged";
}

abbrev stamps : ℕ → Stamp
stamps n = stamp

abbrev inner : State Desk
inner = record { log = new_log; world = desk }

abbrev searching : FakeLlmClient
searching = record {
  scripted_tool_calls =
      record {
        tool_name = "search_tool";
        function_name = "query";
        parameters = [];
        call_id = "call-2";
      }
      ∷ [];
  final_response = "found";
}

-- A verifier of signatures that signs every text alike.
abbrev hmac : Hmac
hmac = record { hexdigest = λ secret message. "5191"; compare_digest = λ a b. ok (a == b) }

abbrev issuer : Issuer
issuer = record { secret = "secret"; ttl_seconds = 50 }

abbrev now : Moment
now = record { seconds = 20; rest = 5 }

abbrev token : String
token = "session-1.agent-1.50.5191"

l1_answered :
    (result : PipelineResult) × ((run runtime codec
        (l1_pipeline host runtime sandbox client example_rules)
        engineer
        stamps
        "deploy it"
        "any"
        (record { gateway = l1_gateway []; inner = inner })).0
      ≡ ok result)
unfolding run handle_inbound authenticate check_rate_limit call_count RegexPii.inspect_input
    RegexPii.inspect_output find_injection_markers matching prompt_injection_patterns mask mask_with
    pii_patterns reason respond handle_calls propose_tool_calls complete to_tool_request handle
    check_breaker attempt finish audit_and_wrap log_call append l1_gateway verify l1_pipeline
    StaticEngine.evaluate StaticEngine.checks StaticEngine.check_tool evaluate_decision
    settle_decision run_decided safely_resolve_action_requirements settle_approval
    resolve_action_requirements unsupported seek_approval answer run_allowed execute_sandboxed
    settle_sandbox record_circuit_breaker_outcome member lookup wrap check_identity attribute
    has_one_of check_parameters check_parameter check_patterns check_gates gate_applies has_text
    check_rate approve partition str_value no_calls l1_interceptor approve_by_queue review
    static_engine Subprocess.default_implementation Subprocess.execute Subprocess.implementation
    Subprocess.settle_run StaticEngine.is_visible
l1_answered = (_, refl)

l1_run_example :
    (find_injection_markers runtime (mask runtime "deploy it") ≡ [])
    × ExecutedFrom runtime codec
        (l1_pipeline host runtime sandbox client example_rules)
        engineer
        stamps
        (IsGranted runtime host sandbox example_rules engineer)
        0
        inner
        client.scripted_tool_calls
        l1_answered.0.tool_call_results
l1_run_example =
    l1_run runtime host sandbox client codec engineer stamps host-IsHost example_rules []
      "deploy it" "any" inner l1_answered.0 l1_answered.1

l2_answered :
    (result : PipelineResult) × ((run runtime codec
        (l2_pipeline host runtime sandbox searching store settings)
        engineer
        stamps
        "deploy it"
        token
        (record { gateway = l2_gateway runtime hmac issuer now []; inner = inner })).0
      ≡ ok result)
unfolding run handle_inbound authenticate check_rate_limit call_count RegexPii.inspect_input
    RegexPii.inspect_output find_injection_markers matching prompt_injection_patterns mask mask_with
    pii_patterns reason respond handle_calls propose_tool_calls complete to_tool_request handle
    check_breaker attempt finish audit_and_wrap log_call append l2_gateway l2_pipeline
    l2_interceptor check in_memory is_open judge drop_old record_result succeeded insert prune
    events_of reaches failures trip record_outcome SessionToken.verify_token SessionToken.split
    SessionToken.at_dot SessionToken.verify_parts SessionToken.sign Semantic.inspect_input
    Semantic.inspect_output semantic_injection_score best_of injection_intents improve jaccard
    tokenize to_set findall runs intersection union db_engine DbEngine.evaluate DbEngine.checks
    DbRules.active_roles seed_example DbRules.tool_exists DbRules.visibility_roles
    DbRules.allowed_functions DbRules.deny_patterns DbRules.append_at DbRules.group
    DbRules.rate_limit_per_session DbRules.requires_approval DbRules.role_gates evaluate_decision
    settle_decision run_decided safely_resolve_action_requirements settle_approval
    resolve_action_requirements unsupported seek_approval answer run_allowed execute_sandboxed
    settle_sandbox record_circuit_breaker_outcome member lookup wrap check_identity attribute
    has_one_of check_parameters check_parameter check_patterns check_gates gate_applies has_text
    check_rate approve partition str_value no_calls approve_by_queue review static_engine
    Subprocess.default_implementation Subprocess.execute Subprocess.implementation
    Subprocess.settle_run StaticEngine.is_visible
l2_answered = (_, refl)

l2_run_example :
    ((p : Parts) × (expiry : ℤ) × (token ≡ joined runtime hmac p)
      × IsAccepted runtime hmac issuer engineer now p expiry)
    × All
        (λ entry.
          ¬ (default_threshold ≤ℚ jaccard (tokenize runtime (mask runtime "deploy it")) entry.1))
        injection_intents
    × (find_injection_markers runtime (mask runtime "deploy it") ≡ [])
    × Executed
        (IsLicensed runtime store engineer)
        searching.scripted_tool_calls
        l2_answered.0.tool_call_results
l2_run_example =
    l2_run runtime host sandbox searching codec engineer stamps hmac store settings issuer now []
      "deploy it" token inner l2_answered.0 l2_answered.1
