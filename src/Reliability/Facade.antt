-- ===== src/Reliability/Facade.antt =====
-- `CircuitBreaker` of reliability/circuit_breaker.py, over any backend: `W` is the state of the world
-- that the backend's operations change.
use Prim.Native.String.{String}
use compliance_framework.Prelude.{◌<>◌, Bool, not, Ratio, Result, ok, raise, Exec, if◌then◌else◌}

-- `BaseCircuitBreakerBackend`
pub record BackendOps (W : Type 0) : Type 0 where
  pub record_success : String → Exec W (Unit {0})
  pub record_failure : String → Exec W (Unit {0})
  pub is_open : String → Exec W Bool
  -- a float, here the quotient that it is computed from
  pub score : String → Exec W Ratio

unfoldable pub key_for : String → String → String
key_for agent_id tool_name = agent_id <> ":" <> tool_name

abbrev negate : Result Bool → Result Bool
negate (ok b) = ok (not b)
negate (raise e) = raise e

module _ {W : Type 0} (backend : BackendOps W) where
  unfoldable pub check : String → String → Exec W Bool
  check agent_id tool_name w =
      let (open_now, w') = backend.is_open (key_for agent_id tool_name) w in (negate open_now, w')

  unfoldable pub record_result : String → String → Bool → Exec W (Unit {0})
  record_result agent_id tool_name success w =
      if success
      then backend.record_success (key_for agent_id tool_name) w
      else backend.record_failure (key_for agent_id tool_name) w

  unfoldable pub score : String → String → Exec W Ratio
  score agent_id tool_name w = backend.score (key_for agent_id tool_name) w
