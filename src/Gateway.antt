-- ===== src/Gateway.antt =====
-- gateway/shim.py. The identity verifier is any function that answers for a credential and a context,
-- or raises.
mod Tests
pub mod RateLimit
use compliance_framework.Prelude.{
  ℕ, ◌+◌, String, ◌<>◌, Bool, true, false, not, Option, none, some, ltb, List, [], ◌∷◌, ◌++◌, Dict,
  lookup, insert, Kind, Result, ok, raise, Exec, if◌then◌else◌,
}
use compliance_framework.Models.{Value, ExecutionContext, ToolRequest}
use compliance_framework.Runtime.{Runtime}
use compliance_framework.Guardrails.Patterns.{mask}

pub record Shim : Type 0 where
  pub verifier : String → ExecutionContext → Result Bool
  pub rate_limit_per_minute : ℕ
  pub call_counts : Dict ℕ

abbrev or_zero : Option ℕ → ℕ
or_zero none = 0
or_zero (some n) = n

-- `call_count`; a missing key of the `defaultdict` counts as 0
unfoldable pub call_count : Shim → String → ℕ
call_count s agent_id = or_zero (lookup agent_id s.call_counts)

-- what `authenticate` makes of the verifier's answer
abbrev pub settle_identity : Result Bool → Result (Unit {0})
settle_identity (raise e) = raise e
settle_identity (ok true) = ok tt
settle_identity (ok false) =
    raise (record { kind = Kind.gateway_auth_error; message = "identity verification failed" })

-- `authenticate`
unfoldable pub authenticate : String → ExecutionContext → Shim → Result (Unit {0})
authenticate credential context s = settle_identity (s.verifier credential context)

-- `check_rate_limit`: the call is counted before the count is tested.
unfoldable pub check_rate_limit : String → Exec Shim (Unit {0})
unfolding call_count
check_rate_limit agent_id s =
    let n = call_count s agent_id + 1 in
    let s' = record s { call_counts = insert agent_id n s.call_counts } in
    if ltb s.rate_limit_per_minute n
    then (
      raise (record {
        kind = Kind.gateway_auth_error;
        message = "rate limit exceeded for agent '" <> agent_id <> "'";
      }),
      s',
    )
    else (ok tt, s')

unfoldable pub handle_inbound : Runtime → String → ExecutionContext → String → Exec Shim String
unfolding authenticate check_rate_limit
handle_inbound py prompt context bearer_token s = elim (authenticate bearer_token context s) [
  | raise e ↦ (raise e, s)
  | ok _ ↦
      let (r, s') = check_rate_limit context.agent_id s in
      elim r [ raise e ↦ (raise e, s') | ok _ ↦ (ok (mask py prompt), s') ]
]

pub record ProposedToolCall : Type 0 where
  pub tool_name : String
  pub function_name : String
  pub parameters : Dict Value
  pub call_id : String

unfoldable pub to_tool_request : ProposedToolCall → ToolRequest
to_tool_request p = record {
  tool_name = p.tool_name;
  function_name = p.function_name;
  parameters = p.parameters;
  call_id = p.call_id;
}

-- `FakeLLMClient`
pub record FakeLlmClient : Type 0 where
  pub scripted_tool_calls : List ProposedToolCall
  pub final_response : String

unfoldable pub script_tool_call : ProposedToolCall → FakeLlmClient → FakeLlmClient
script_tool_call call c = record c { scripted_tool_calls = c.scripted_tool_calls ++ call ∷ [] }

unfoldable pub clear_scripted_calls : FakeLlmClient → FakeLlmClient
clear_scripted_calls c = record c { scripted_tool_calls = [] }

unfoldable pub set_final_response : String → FakeLlmClient → FakeLlmClient
set_final_response response c = record c { final_response = response }

-- The real client would read the prompt and the context; this one does not.
unfoldable pub propose_tool_calls :
    String → ExecutionContext → FakeLlmClient → List ProposedToolCall
propose_tool_calls prompt context c = c.scripted_tool_calls

unfoldable pub complete : String → ExecutionContext → FakeLlmClient → String
complete prompt context c = c.final_response
