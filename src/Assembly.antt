-- ===== src/Assembly.antt =====
-- How the parts are put together, as in examples/run_demo.py and examples/run_demo_l2.py: engines,
-- breaker and approval queue over one world, behind an interface that says where the world keeps them.
pub mod Tests
pub mod Permitted
pub mod Approved
pub mod Tripped
pub mod Passed
pub mod Levels
use compliance_framework.Prelude.{
  ℕ, String, Bool, true, false, ◌≡◌, Option, none, some, [], Dict, Result, ok, raise, Exec, Task, ℤ,
  Ratio,
}
use compliance_framework.Models.{ExecutionContext, ToolRequest, PolicyDecision}
use compliance_framework.Runtime.{Runtime}
use compliance_framework.Policy.Rules.{PolicyRuleSet}
use compliance_framework.Policy.DbRules.{Db}
use compliance_framework.Policy.StaticEngine
use compliance_framework.Policy.DbEngine
use compliance_framework.Hitl.{ApprovalQueue, review}
use compliance_framework.Reliability.InMemory
use compliance_framework.Reliability.InMemory.{Config, Backend, record_outcome, is_open}
use compliance_framework.Reliability.Facade.{BackendOps}
use compliance_framework.Sandbox.Subprocess.{SubprocessSandbox}
use compliance_framework.Sandbox.Subprocess
use compliance_framework.Interceptor.{Interceptor}
use compliance_framework.Guardrails.RegexPii
use compliance_framework.Guardrails.Semantic
use compliance_framework.Identity.StaticBearer.{verify}
use compliance_framework.Identity.SessionToken.{Hmac, Moment, Issuer, verify_token}
use compliance_framework.Gateway.{Shim, FakeLlmClient}
use compliance_framework.Pipeline.{Guardrail, Pipeline}

-- Where a world keeps the objects that the parts share, and its clock.
pub record Host (W : Type 0) : Type 0 where
  pub backend : W → Backend
  pub put_backend : Backend → W → W
  pub queue : W → ApprovalQueue
  pub put_queue : ApprovalQueue → W → W
  -- `time.monotonic()`, in milliseconds
  pub monotonic : W → ℕ

-- An object that is put into a world is found there, and putting back what is there changes nothing.
pub record IsHost {W : Type 0} (host : Host W) : Type 0 where
  pub backend-put : (b : Backend) (w : W) → host.backend (host.put_backend b w) ≡ b
  pub put-backend : (w : W) → host.put_backend (host.backend w) w ≡ w
  pub queue-put : (q : ApprovalQueue) (w : W) → host.queue (host.put_queue q w) ≡ q

module _ (py : Runtime) {W : Type 0} where
  -- `evaluate_tool_call` of the engines waits for nothing, so it is done before any time limit.
  unfoldable pub static_engine :
      PolicyRuleSet → (String → Result ℤ) → ExecutionContext → ToolRequest → Task W PolicyDecision
  static_engine rules counter context request limit w =
      (some (StaticEngine.evaluate py rules counter context request), w)

  unfoldable pub db_engine :
      Db → (String → Result ℤ) → ExecutionContext → ToolRequest → Task W PolicyDecision
  db_engine store counter context request limit w =
      (some (DbEngine.evaluate py store counter context request), w)

-- The default of `call_counter`
unfoldable pub no_calls : String → Result ℤ
no_calls session_id = ok (ℤ.pos 0)

module _ {W : Type 0} (host : Host W) where
  -- `InMemoryApprovalQueue` as the approval callback
  unfoldable pub approve_by_queue : ExecutionContext → ToolRequest → PolicyDecision → Exec W Bool
  approve_by_queue context request decision w =
      let (answer, q) = review context request decision (host.queue w) in
      (answer, host.put_queue q w)

  -- `InMemoryCircuitBreakerBackend` as the backend of a `CircuitBreaker`
  unfoldable pub in_memory : Config → BackendOps W
  in_memory cfg = record {
    record_success = λ key w. (
      ok tt,
      host.put_backend (record_outcome cfg true key (host.monotonic w) (host.backend w)) w,
    );
    record_failure = λ key w. (
      ok tt,
      host.put_backend (record_outcome cfg false key (host.monotonic w) (host.backend w)) w,
    );
    is_open = λ key w.
        let (answer, b) = is_open cfg key (host.monotonic w) (host.backend w) in
        (answer, host.put_backend b w);
    score = λ key w.
        let (answer, b) = InMemory.score cfg key (host.monotonic w) (host.backend w) in
        (ok answer, host.put_backend b w);
  }

  module _ (py : Runtime) (sandbox : SubprocessSandbox W) where
    -- The interceptor of `make_pipeline` in run_demo.py
    unfoldable pub l1_interceptor : PolicyRuleSet → Interceptor W
    l1_interceptor rules = record {
      policy_engine = static_engine py rules no_calls;
      sandbox = Subprocess.execute host.monotonic sandbox;
      approval_callback = some approve_by_queue;
      decision_timeout_ms = 2000;
      circuit_breaker = none;
      clock = host.monotonic;
    }

    -- The interceptor of `make_pipeline` in run_demo_l2.py
    unfoldable pub l2_interceptor : Db → Config → Interceptor W
    l2_interceptor store cfg = record {
      policy_engine = db_engine py store no_calls;
      sandbox = Subprocess.execute host.monotonic sandbox;
      approval_callback = none;
      decision_timeout_ms = 2000;
      circuit_breaker = some (in_memory cfg);
      clock = host.monotonic;
    }

-- The guardrails of the two pipelines.
abbrev pub regex_guardrail : Runtime → Guardrail
regex_guardrail py = record {
  inspect_input = RegexPii.inspect_input py true;
  inspect_output = RegexPii.inspect_output py true;
}

-- `similarity_threshold`, which is 0.35
abbrev pub default_threshold : Ratio
default_threshold = record { num = 35; den = 100 }

abbrev pub semantic_guardrail : Runtime → Guardrail
semantic_guardrail py = record {
  inspect_input = Semantic.inspect_input py default_threshold (regex_guardrail py).inspect_input;
  inspect_output = Semantic.inspect_output py (regex_guardrail py).inspect_output;
}

-- The gateways of the two pipelines, with the calls that they have counted. The second reads the time
-- when it authenticates a run.
unfoldable pub l1_gateway : Dict ℕ → Shim
l1_gateway counts = record {
  verifier = λ credential context. ok (verify [] credential context);
  rate_limit_per_minute = 100;
  call_counts = counts;
}

unfoldable pub l2_gateway : Runtime → Hmac → Issuer → Moment → Dict ℕ → Shim
l2_gateway py hmac issuer now counts = record {
  verifier = λ credential context. verify_token py hmac issuer credential context now;
  rate_limit_per_minute = 100;
  call_counts = counts;
}

module _ {W : Type 0} (host : Host W) (py : Runtime) (sandbox : SubprocessSandbox W)
    (client : FakeLlmClient) where
  -- `make_pipeline` of run_demo.py, without the gateway
  unfoldable pub l1_pipeline : PolicyRuleSet → Pipeline W
  l1_pipeline rules = record {
    guardrail = regex_guardrail py;
    llm_client = client;
    interceptor = l1_interceptor host py sandbox rules;
  }

  -- `make_pipeline` of run_demo_l2.py, without the gateway
  unfoldable pub l2_pipeline : Db → Config → Pipeline W
  l2_pipeline store cfg = record {
    guardrail = semantic_guardrail py;
    llm_client = client;
    interceptor = l2_interceptor host py sandbox store cfg;
  }
