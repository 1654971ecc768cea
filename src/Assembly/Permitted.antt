-- ===== src/Assembly/Permitted.antt =====
-- What reaches the sandbox, from the rows of the store on.
use compliance_framework.Prelude.{
  String, Bool, true, false, ◌≡◌, refl, sym, ap, ◌∙◌, ◌⊎◌, inl, inr, some, Result, ok, Exec, ℤ,
  member,
}
use compliance_framework.Models.{ExecutionContext, ToolRequest, PolicyDecision, SandboxResult}
use compliance_framework.Runtime.{Runtime}
use compliance_framework.Policy.Checks.{approve}
use compliance_framework.Policy.DbRules.{Db, requires_approval}
use compliance_framework.Policy.DbEngine
use compliance_framework.Policy.DbEngine.Exact as DbExact
use compliance_framework.Policy.DbEngine.Exact.{db_evaluate_allows_iff}
use compliance_framework.Interceptor.{Interceptor, attempt}
use compliance_framework.Interceptor.Permission.{attempt_sandboxed}
use compliance_framework.Assembly.{db_engine}

pub asks_approve : (b : Bool) → member "human_approval" (approve b).action_requirements ≡ b
unfolding approve member
asks_approve true = refl
asks_approve false = refl

module _ (py : Runtime) {W : Type 0} (i : Interceptor W) (store : Db)
    (counter : String → Result ℤ) where
  abbrev pub over_db : Interceptor W
  over_db = record i { policy_engine = db_engine py store counter }

  -- The store asks for no human, or one was asked for this very call and agreed.
  abbrev pub Consent : ExecutionContext → ToolRequest → W → Type 0
  Consent context request w =
      (requires_approval store request.tool_name request.function_name ≡ false)
      ⊎ ((callback : ExecutionContext → ToolRequest → PolicyDecision → Exec W Bool)
          × (i.approval_callback ≡ some callback)
          × ((callback context request (DbExact.decision_for py store counter request) w).0
              ≡ ok true))

  -- From the store to the sandbox: over the database-backed engine, a call leaves a sandbox result only
  -- if the rows of the store permit it, and, where the store says that its function requires approval,
  -- only if the approval callback was asked about this call and answered yes.
  pub sandboxed-Permits :
      (context : ExecutionContext) (request : ToolRequest) (w : W) (result : SandboxResult)
      → (attempt py over_db context request w).0.sandbox_result ≡ some result
      → ((calls : ℤ) × (limit : ℤ) × DbExact.Permits py store counter context request calls limit)
        × Consent context request w
  unfolding db_engine
  sandboxed-Permits context request w result h =
      let (d, w', resolved, w'', cleared, same) =
        attempt_sandboxed py over_db context request w result h in
      let evaluated : DbEngine.evaluate py store counter context request ≡ ok d =
        ap (λ p. p.0) cleared.answered in
      let still : w ≡ w' = ap (λ p. p.1) cleared.answered in
      let (calls, limit, permits, decided) =
        (db_evaluate_allows_iff py store counter context request d).0
          (evaluated, cleared.allowed) in
      let asks = asks_approve (requires_approval store request.tool_name request.function_name) in
      (
        (calls, limit, permits),
        elim cleared.approved [
          | inl (free, _, _) ↦ inl (
              sym asks
              ∙ ap (λ (x : PolicyDecision). member "human_approval" x.action_requirements)
                  (sym decided)
              ∙ free)
          | inr (callback, asked, found, said, moved) ↦ inr (
            callback,
            found,
            ap (λ x. (callback context request x w).0) (sym decided)
                ∙ ap (λ x. (callback context request d x).0) still
                ∙ said,
          )
        ],
      )
