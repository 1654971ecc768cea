-- ===== src/Audit/WormLog.antt =====
-- audit/worm_log.py. The file is the list of its lines.
pub mod Chain
pub mod Breaks
pub mod Writing
pub mod Tampering
pub mod Altering
pub mod Growth
pub mod Forwarding
use compliance_framework.Prelude.{
  ℕ, suc, ◌+◌, String, ◌<>◌, Bool, true, false, not, ◌&&◌, Option, none, some, ◌==◌, nonempty, List,
  [], ◌∷◌, ◌++◌, map, Dict, Exn, Result, ok, raise, ◌>>=◌, Exec, if◌then◌else◌,
}
use compliance_framework.Models.{
  Value, str_value, ExecutionContext, ToolRequest, PolicyDecision, dump_decision,
}
use compliance_framework.Runtime.{Runtime}
use compliance_framework.Audit.Records.{RedactedContext, RedactedRequest, AuditRecord, payload}
use compliance_framework.Audit.Siem.{Sink, forward_best_effort}

-- `model_dump_json` and `model_validate_json` of pydantic, for audit records.
pub record Codec : Type 0 where
  pub dump_json : AuditRecord → String
  pub validate_json : String → Result AuditRecord

pub record ChainVerificationResult : Type 0 where
  pub valid : Bool
  pub record_count : ℕ
  pub first_broken_index : Option ℕ

abbrev pub genesis_hash : String
genesis_hash = "0000000000000000000000000000000000000000000000000000000000000000"

pub record Logger : Type 0 where
  -- The lines of the file, each with its newline.
  pub lines : List String
  -- What an attempt to write to the file raises now, such as an `OSError` where the disk is full.
  pub fault : Option Exn
  pub redact_parameters : Bool
  pub sinks : List Sink
  pub prev_hash : String

-- The `uuid4` and the time that a call of `log_call` meets.
pub record Stamp : Type 0 where
  pub record_id : String
  pub timestamp : String

module _ (py : Runtime) where
  -- `_canonical_bytes`
  unfoldable pub canonical : AuditRecord → String
  canonical r = py.dumps (payload r)

  -- The digest of a text that UTF-8 encodes; `encode` raises for one with a lone surrogate.
  unfoldable pub hash_value : Value → String
  hash_value value = py.sha256 (str_value py.repr value)

  unfoldable pub compute_record_hash : String → AuditRecord → String
  compute_record_hash prev_hash r = py.sha256 (prev_hash <> canonical r)

  -- the test of `verify_chain` on one record
  unfoldable pub continues : String → AuditRecord → Bool
  continues prev_hash r =
      r.prev_hash == prev_hash && r.record_hash == compute_record_hash prev_hash r

  -- The record as `append` completes it.
  unfoldable pub chained : String → AuditRecord → AuditRecord
  chained prev_hash r =
      let linked = record r { prev_hash = prev_hash } in
      record linked { record_hash = compute_record_hash prev_hash linked }

  unfoldable pub redact_request : Bool → ToolRequest → RedactedRequest
  redact_request redact request = record {
    tool_name = request.tool_name;
    function_name = request.function_name;
    call_id = request.call_id;
    parameters =
        map (λ (k, v). (k, if redact then hash_value v else str_value py.repr v))
          request.parameters;
  }

  -- The record that `log_call` hands to `append`.
  unfoldable pub record_for :
      Bool
      → Stamp
      → ExecutionContext
      → ToolRequest
      → PolicyDecision
      → Option (Dict Value)
      → AuditRecord
  record_for redact stamp context request decision result = record {
    record_id = stamp.record_id;
    timestamp = stamp.timestamp;
    call_id = request.call_id;
    context = record {
      user_id = context.user_id;
      agent_id = context.agent_id;
      session_id = context.session_id;
      roles = context.roles;
    };
    request = redact_request redact request;
    decision = dump_decision decision;
    sandbox_result = result;
    prev_hash = genesis_hash;
    record_hash = "";
  }

  module _ (codec : Codec) where
    -- the loop of `verify_chain`
    unfoldable pub verify_from : String → ℕ → ℕ → List String → Result ChainVerificationResult
    verify_from prev_hash count index [] =
        ok (record { valid = true; record_count = count; first_broken_index = none })
    verify_from prev_hash count index (line ∷ lines) =
        let skip = verify_from prev_hash count (suc index) lines in
        let step = λ (r : AuditRecord). verify_from r.record_hash (suc count) (suc index) lines in
        if nonempty (py.strip line)
        then (do
          r ← codec.validate_json (py.strip line)
          if continues prev_hash r
              then step r
              else ok
                  (record { valid = false; record_count = count; first_broken_index = some index }))
        else skip

    unfoldable pub verify_chain : List String → Result ChainVerificationResult
    verify_chain lines = verify_from genesis_hash 0 0 lines

    unfoldable pub verify : Logger → Result ChainVerificationResult
    verify l = verify_chain l.lines

    -- the loop of `_load_last_hash`
    unfoldable pub last_hash_from : String → List String → Result String
    last_hash_from last [] = ok last
    last_hash_from last (line ∷ lines) =
        let skip = last_hash_from last lines in
        let step = λ (r : AuditRecord). last_hash_from r.record_hash lines in
        if nonempty (py.strip line)
        then (do r ← codec.validate_json (py.strip line); step r)
        else skip

    unfoldable pub load_last_hash : List String → Result String
    load_last_hash lines = last_hash_from genesis_hash lines

    -- `HashChainedJSONLLogger(path, redact_parameters, sinks)` over a file that has these lines
    unfoldable pub open_log : List String → Bool → List Sink → Result Logger
    open_log lines redact sinks = do
      prev_hash ← load_last_hash lines
      ok (record {
        lines = lines;
        fault = none;
        redact_parameters = redact;
        sinks = sinks;
        prev_hash = prev_hash;
      })

    unfoldable pub append : AuditRecord → Exec Logger AuditRecord
    append r l =
        let done = chained l.prev_hash r in
        elim l.fault [
          | some e ↦ (raise e, l)
          | none ↦ (
            ok done,
            record l {
              lines = l.lines ++ codec.dump_json done ∷ [];
              prev_hash = done.record_hash;
              sinks = forward_best_effort l.sinks done;
            },
          )
        ]

    unfoldable pub log_call :
        Stamp
        → ExecutionContext
        → ToolRequest
        → PolicyDecision
        → Option (Dict Value)
        → Exec Logger AuditRecord
    log_call stamp context request decision result l =
        append (record_for l.redact_parameters stamp context request decision result) l
