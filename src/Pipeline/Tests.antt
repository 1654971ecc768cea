-- ===== src/Pipeline/Tests.antt =====
-- A run of the pipeline with one proposed call.
use compliance_framework.Prelude.{
  ℕ, ◌+◌, ◌≡◌, refl, true, false, none, some, [], ◌∷◌, length, All, lookup, Kind, Result, ok, raise,
}
use compliance_framework.Models.{decide_as}
use compliance_framework.Fixture.{runtime, engineer}
use compliance_framework.Audit.WormLog.{
  Codec, Stamp, genesis_hash, log_call, append, chained, record_for, verify_chain,
}
use compliance_framework.Audit.Records.{AuditRecord}
use compliance_framework.Audit.WormLog.Chain.{done, verified}
use compliance_framework.Audit.WormLog.Writing.{IsFaithful}
use compliance_framework.Pipeline.Growth.{records_of, run-verified}
use compliance_framework.Gateway.{
  authenticate, check_rate_limit, handle_inbound, to_tool_request, propose_tool_calls, complete,
  call_count,
}
use compliance_framework.Guardrails.Patterns.{mask, mask_with, pii_patterns}
use compliance_framework.Interceptor.{
  Interceptor, settle_decision, evaluate_decision, run_decided, attempt, check_breaker,
  audit_and_wrap, finish, handle,
}
use compliance_framework.Pipeline.{
  Pipeline, Stage, PipelineResult, handle_calls, respond, reason, run,
}

abbrev denying : Interceptor ℕ
denying = record {
  policy_engine = λ context request limit w. (some (ok (decide_as false "tool not permitted")), w);
  sandbox = λ request context w. (raise (record { kind = Kind.other_error; message = "" }), w + 1);
  approval_callback = none;
  decision_timeout_ms = 50;
  circuit_breaker = none;
  clock = λ w. w;
}

abbrev pipeline : Pipeline ℕ
pipeline = record {
  guardrail = record {
    inspect_input = λ prompt context. ok prompt;
    inspect_output = λ response context. ok response;
  };
  llm_client = record {
    scripted_tool_calls =
        record {
          tool_name = "deploy_tool";
          function_name = "deploy";
          parameters = [];
          call_id = "call-1";
        }
        ∷ [];
    final_response = "acknowledged";
  };
  interceptor = denying;
}

abbrev codec : Codec
codec = record {
  dump_json = λ r. r.record_id;
  validate_json = λ text. raise (record { kind = Kind.other_error; message = "invalid JSON" });
}

abbrev stamps : ℕ → Stamp
stamps n = record { record_id = "r1"; timestamp = "2026-01-01T00:00:00" }

abbrev stage : Stage ℕ
stage = record {
  gateway = record {
    verifier = λ credential context. ok true;
    rate_limit_per_minute = 5;
    call_counts = [];
  };
  inner = record {
    log = record {
      lines = [];
      fault = none;
      redact_parameters = true;
      sinks = [];
      prev_hash = genesis_hash;
    };
    world = 0;
  };
}

abbrev outcome : Result PipelineResult
outcome = (run runtime codec pipeline engineer stamps "deploy it" "secret" stage).0

-- The result of a run, and that it is one.
answered : (result : PipelineResult) × (outcome ≡ ok result)
unfolding run handle_inbound authenticate check_rate_limit call_count lookup mask mask_with
    pii_patterns reason respond handle_calls propose_tool_calls complete to_tool_request handle
    check_breaker attempt evaluate_decision settle_decision run_decided finish audit_and_wrap
    log_call append
answered = (_, refl)

abbrev first_record : Result PipelineResult → Result AuditRecord
first_record (raise e) = raise e
first_record (ok result) = elim (records_of result.tool_call_results) [
  | [] ↦ raise (record { kind = Kind.other_error; message = "no record" })
  | r ∷ rs ↦ ok r
]

-- A codec that reads the record of the run.
abbrev reading : Codec
reading = record codec { validate_json = λ text. first_record outcome }

recorded :
    (result : PipelineResult) × ((run runtime reading pipeline engineer stamps "deploy it" "secret"
        stage).0
      ≡ ok result)
    × All (IsFaithful runtime reading) (records_of result.tool_call_results)
unfolding run handle_inbound authenticate check_rate_limit call_count lookup mask mask_with
    pii_patterns reason respond handle_calls propose_tool_calls complete to_tool_request handle
    check_breaker attempt evaluate_decision settle_decision run_decided finish audit_and_wrap
    log_call append chained record_for
recorded = (_, refl, (record { full = refl; parsed = refl }, tt))

run-verified_example :
    verify_chain runtime reading
      (run runtime reading pipeline engineer stamps "deploy it" "secret" stage).1.inner.log.lines
    ≡ ok (verified (0 + length recorded.0.tool_call_results))
run-verified_example =
    run-verified runtime reading pipeline engineer stamps "deploy it" "secret" stage recorded.0 []
      refl recorded.1 (record { reads = done; chain = tt; remembers = refl }) recorded.2
