-- ===== src/Sandbox/Subprocess/Outcome.antt =====
-- What the results of the in-process sandbox mean.
use compliance_framework.Prelude.{
  ℕ, String, true, false, ◌≡◌, ◌↔◌, inl, inr, Exn, is_timeout, is_exception, Result, ok, raise,
  wait_for, Result-cases, Bool-cases, arith,
}
use compliance_framework.Models.{ExecutionContext, ToolRequest, SandboxResult}
use compliance_framework.Interceptor.{succeeded}
use compliance_framework.Sandbox.Subprocess.{SubprocessSandbox, settle_run, implementation, execute}

module _ {W : Type 0} (clock : W → ℕ) (sandbox : SubprocessSandbox W) (request : ToolRequest)
    (context : ExecutionContext) where
  -- What the implementation of the request makes of the world, under the time limit.
  abbrev pub ran : W → Result String × W
  ran w = wait_for sandbox.timeout.ms (implementation sandbox request request context) w

  -- `execute` returns a result that counts as a success (exit code 0, no timeout) exactly when the
  -- implementation returned in time, and its text is then the result's stdout; and `execute` raises an
  -- exception exactly when the implementation raised it and it is no `Exception`, as a cancellation.
  pub execute_outcome :
      (w : W)
      → ((r : SandboxResult)
          → (execute clock sandbox request context w).0 ≡ ok r
          → (succeeded r ≡ true)
            ↔ ((stdout : String) × ((ran w).0 ≡ ok stdout) × (r.stdout ≡ stdout)))
        × ((e : Exn)
            → ((execute clock sandbox request context w).0 ≡ raise e)
              ↔ (((ran w).0 ≡ raise e) × (is_exception e ≡ false)))
  unfolding execute settle_run succeeded
  execute_outcome w = elim (Result-cases (ran w).0) [
    | inl (stdout, told) ↦
        (λ r h. (λ _. (stdout, told, ground arith), λ _. ground arith), λ e. ground arith)
    | inr (x, left) ↦ elim (Bool-cases (is_timeout x)) [
      | inl late ↦ (λ r h. ground arith, λ e. ground arith)
      | inr other ↦ elim (Bool-cases (is_exception x)) [
        | inl caught ↦ (λ r h. ground arith, λ e. ground arith)
        | inr escapes ↦ (λ r h. ground arith, λ e. ground arith)
      ]
    ]
  ]
