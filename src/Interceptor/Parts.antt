-- ===== src/Interceptor/Parts.antt =====
-- What interceptor.py is made from and what it keeps: its parts, its results and its state.
use compliance_framework.Prelude.{Task, ℕ, Bool, Option, Exn, Exec}
use compliance_framework.Models.{ExecutionContext, ToolRequest, PolicyDecision, SandboxResult}
use compliance_framework.Reliability.Facade.{BackendOps}
use compliance_framework.Audit.Records.{AuditRecord}
use compliance_framework.Audit.WormLog.{Logger}

pub record Interceptor (W : Type 0) : Type 0 where
  pub policy_engine : ExecutionContext → ToolRequest → Task W PolicyDecision
  pub sandbox : ToolRequest → ExecutionContext → Exec W SandboxResult
  pub approval_callback : Option (ExecutionContext → ToolRequest → PolicyDecision → Exec W Bool)
  pub decision_timeout_ms : ℕ
  pub circuit_breaker : Option (BackendOps W)
  -- `time.monotonic()`, in milliseconds
  pub clock : W → ℕ

pub record InterceptorResult : Type 0 where
  pub allowed : Bool
  pub decision : PolicyDecision
  pub sandbox_result : Option SandboxResult
  pub audit_record : AuditRecord

pub record State (W : Type 0) : Type 0 where
  pub log : Logger
  pub world : W

-- What the variables of `handle` hold when its `try` block is left, and the exception that leaves it.
pub record Progress : Type 0 where
  pub decision : PolicyDecision
  pub sandbox_result : Option SandboxResult
  pub pending : Option Exn
