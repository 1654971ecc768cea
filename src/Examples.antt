-- ===== src/Examples.antt =====
-- The programs of examples/: what they are made from. Printing is left out.
mod Tests
pub mod RunDemo
pub mod RunDemoL2
pub mod Recorded
pub mod Detected
pub mod Logged
pub mod Toured
use compliance_framework.Prelude.{
  String, Bool, false, List, [], ◌∷◌, Kind, Exn, Result, ok, raise, Exec,
}
use compliance_framework.Models.{str, ExecutionContext}
use compliance_framework.Hitl.{ApprovalQueue}
use compliance_framework.Gateway.{ProposedToolCall, FakeLlmClient, script_tool_call}
use compliance_framework.Sandbox.Subprocess.{SubprocessSandbox}

-- One action after another, unless the first raises.
infixl 5 ◌>>=◌
unfoldable pub ◌>>=◌ : {S A B : Type 0} → Exec S A → (A → Exec S B) → Exec S B
(action >>= next) s =
    let (r, s') = action s in elim r [ ok a ↦ next a s' | raise e ↦ (raise e, s') ]

abbrev pub return : {S A : Type 0} → A → Exec S A
return a s = (ok a, s)

-- An action that changes the state only.
abbrev pub modify : {S : Type 0} → (S → S) → Exec S (Unit {0})
modify f s = (ok tt, f s)

-- What a computation that reads the state says of it.
abbrev pub inspect : {S A : Type 0} → (S → Result A) → Exec S A
inspect f s = (f s, s)

abbrev pub assertion_error : Exn
assertion_error = record { kind = Kind.other_error; message = "" }

abbrev pub index_error : Exn
index_error = record { kind = Kind.other_error; message = "list index out of range" }

-- `FakeLLMClient()`
unfoldable pub new_client : FakeLlmClient
new_client = record { scripted_tool_calls = []; final_response = "acknowledged" }

-- `SubprocessSandbox()`
unfoldable pub new_sandbox : {W : Type 0} → SubprocessSandbox W
new_sandbox = record { implementations = []; timeout = record { ms = 5000; seconds = "5.0" } }

-- `InMemoryApprovalQueue()`
unfoldable pub new_queue : ApprovalQueue
new_queue = record { decisions = []; default = false; received = [] }

-- A context without scopes and metadata.
abbrev pub context_of : String → String → String → List String → ExecutionContext
context_of user_id agent_id session_id roles = record {
  user_id = user_id;
  agent_id = agent_id;
  session_id = session_id;
  roles = roles;
  delegated_scopes = [];
  metadata = [];
}

abbrev pub analyst_ctx : ExecutionContext
analyst_ctx = context_of "user-jane" "agent-research" "session-1" ("AgentExecutor" ∷ [])
