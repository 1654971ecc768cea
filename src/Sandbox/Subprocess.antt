-- ===== src/Sandbox/Subprocess.antt =====
-- sandbox/subprocess_sandbox.py: registered implementations, run in the process itself.
pub mod Outcome
use compliance_framework.Prelude.{
  ℕ, ◌-◌, String, ◌<>◌, Bool, true, false, Option, none, some, [], Dict, lookup, insert, ℤ, pos,
  Exn, is_timeout, is_exception, Result, ok, raise, Exec, Task, wait_for, if◌then◌else◌,
}
use compliance_framework.Models.{ExecutionContext, ToolRequest, SandboxResult}

-- A time limit in milliseconds, with the text of its seconds, a float.
pub record Timeout : Type 0 where
  pub ms : ℕ
  pub seconds : String

-- The implementation of a tool's function.
abbrev pub ToolImplementation : Type 0 → Type 0
ToolImplementation W = ToolRequest → ExecutionContext → Task W String

pub record SubprocessSandbox (W : Type 0) : Type 0 where
  pub implementations : Dict (ToolImplementation W)
  pub timeout : Timeout

-- `_default_implementation`
unfoldable pub default_implementation : {W : Type 0} → ToolImplementation W
default_implementation request context limit w =
    (some (ok ("ok: executed " <> request.tool_name <> "." <> request.function_name)), w)

abbrev pub get_or_default : {W : Type 0} → Option (ToolImplementation W) → ToolImplementation W
get_or_default none = default_implementation
get_or_default (some impl) = impl

-- a result of a run that did not end well
abbrev pub failed : String → ℕ → ℕ → Bool → SandboxResult
failed stderr exit_code duration timed_out = record {
  stdout = "";
  stderr = stderr;
  exit_code = pos exit_code;
  duration_ms = duration;
  timed_out = timed_out;
}

abbrev pub finished : String → ℕ → SandboxResult
finished stdout duration = record {
  stdout = stdout;
  stderr = "";
  exit_code = pos 0;
  duration_ms = duration;
  timed_out = false;
}

-- the answer of the implementation, and the `except` clauses of `execute`
unfoldable pub settle_run : Timeout → ℕ → Result String → Result SandboxResult
settle_run timeout duration (ok stdout) = ok (finished stdout duration)
settle_run timeout duration (raise e) =
    if is_timeout e
    then ok (failed ("execution exceeded " <> timeout.seconds <> "s timeout") 124 duration true)
    else if is_exception e
    then ok (failed e.message 1 duration false)
    else raise e

module _ {W : Type 0} where
  unfoldable pub register :
      String → String → ToolImplementation W → SubprocessSandbox W → SubprocessSandbox W
  register tool_name function_name impl sandbox = record sandbox {
    implementations = insert (tool_name <> "." <> function_name) impl sandbox.implementations;
  }

  -- The implementation that `execute` runs for a request.
  unfoldable pub implementation : SubprocessSandbox W → ToolRequest → ToolImplementation W
  implementation sandbox request =
      get_or_default
        (lookup (request.tool_name <> "." <> request.function_name) sandbox.implementations)

  -- `clock` is `time.monotonic()`, in milliseconds.
  unfoldable pub execute :
      (clock : W → ℕ) → SubprocessSandbox W → ToolRequest → ExecutionContext → Exec W SandboxResult
  execute clock sandbox request context w =
      let (r, w') =
        wait_for sandbox.timeout.ms (implementation sandbox request request context) w in
      (settle_run sandbox.timeout (clock w' - clock w) r, w')
