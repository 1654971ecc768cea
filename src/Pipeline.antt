-- ===== src/Pipeline.antt =====
-- pipeline.py: gateway, guardrail, client and interceptor, one after the other.
mod Tests
pub mod Trail
pub mod Growth
pub mod Executed
use compliance_framework.Prelude.{ℕ, suc, String, List, [], ◌∷◌, Result, ok, raise, Exec}
use compliance_framework.Models.{ExecutionContext, ToolRequest}
use compliance_framework.Runtime.{Runtime}
use compliance_framework.Audit.WormLog.{Codec, Stamp}
use compliance_framework.Gateway.{
  Shim, handle_inbound, ProposedToolCall, to_tool_request, FakeLlmClient, propose_tool_calls,
  complete,
}
use compliance_framework.Interceptor.{Interceptor, InterceptorResult, State, handle}

-- `BaseGuardrail`: each inspection returns the cleaned text or raises.
pub record Guardrail : Type 0 where
  pub inspect_input : String → ExecutionContext → Result String
  pub inspect_output : String → ExecutionContext → Result String

-- `GovernancePipeline`, without the parts of it that change
pub record Pipeline (W : Type 0) : Type 0 where
  pub guardrail : Guardrail
  pub llm_client : FakeLlmClient
  pub interceptor : Interceptor W

-- The parts that change: the gateway, and what the interceptor works on.
pub record Stage (W : Type 0) : Type 0 where
  pub gateway : Shim
  pub inner : State W

pub record PipelineResult : Type 0 where
  pub final_response : String
  pub tool_call_results : List InterceptorResult

module _ (py : Runtime) (codec : Codec) {W : Type 0} (pipeline : Pipeline W)
    (context : ExecutionContext) where
  -- the loop over the proposed calls; the stamps are those that the calls of `log_call` meet
  unfoldable pub handle_calls :
      (ℕ → Stamp) → ℕ → List ProposedToolCall → Exec (State W) (List InterceptorResult)
  handle_calls stamps n [] s = (ok [], s)
  handle_calls stamps n (call ∷ calls) s =
      let (r, s') =
        handle py pipeline.interceptor codec (stamps n) context (to_tool_request call) s in
      let (rest, s'') = handle_calls stamps (suc n) calls s' in
      elim r [
        | raise e ↦ (raise e, s')
        | ok result ↦ elim rest [
          | raise e ↦ (raise e, s'')
          | ok results ↦ (ok (result ∷ results), s'')
        ]
      ]

  -- the statements of `run` behind the loop
  unfoldable pub respond : String → List InterceptorResult → Result PipelineResult
  respond prompt results =
      elim (pipeline.guardrail.inspect_output (complete prompt context pipeline.llm_client)
        context) [
          | raise e ↦ raise e
          | ok response ↦ ok (record { final_response = response; tool_call_results = results })
        ]

  -- the statements of `run` behind the two inspections of the prompt
  unfoldable pub reason : (ℕ → Stamp) → String → Exec (State W) PipelineResult
  reason stamps prompt s =
      let (r, s') =
        handle_calls stamps 0 (propose_tool_calls prompt context pipeline.llm_client) s in
      elim r [ raise e ↦ (raise e, s') | ok results ↦ (respond prompt results, s') ]

  unfoldable pub run : (ℕ → Stamp) → String → String → Exec (Stage W) PipelineResult
  run stamps prompt bearer_token s =
      let (r, gateway) = handle_inbound py prompt context bearer_token s.gateway in
      elim r [
        | raise e ↦ (raise e, record s { gateway = gateway })
        | ok clean ↦ elim (pipeline.guardrail.inspect_input clean context) [
          | raise e ↦ (raise e, record s { gateway = gateway })
          | ok prompt' ↦
              let (answer, inner) = reason stamps prompt' s.inner in
              (answer, record { gateway = gateway; inner = inner })
        ]
      ]
