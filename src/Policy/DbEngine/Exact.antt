-- ===== src/Policy/DbEngine/Exact.antt =====
-- Exactly which tool calls the database-backed engine allows.
use compliance_framework.Prelude.{
  String, true, ◌≡◌, ◌↔◌, member_iff, In, All, Some, List, [], ◌∷◌, Result, ok, ℤ, ◌≤ℤ◌, arith, ◌∙◌,
  ap, sym, some, lookup, All-iff, Dict, false,
}
use compliance_framework.Models.{
  Value, not_none, str_value, ExecutionContext, ToolRequest, PolicyDecision,
}
use compliance_framework.Runtime.{Runtime}
use compliance_framework.Policy.Checks.{pass, approve, lift}
use compliance_framework.Policy.Checks.Laws.{
  >>=-eq-pass, >>-eq-pass, require-eq-pass_iff, lift-eq-pass, has_one_of_iff, HasIdentity,
  check_identity-eq-pass_iff, IsClean, check_parameters-eq-pass_iff, check_gates-eq-pass_iff,
  check_rate-eq-pass_iff, wrap-settle_iff, allowed-approve,
}
use compliance_framework.Policy.StaticEngine.Exact.{is_visible_iff}
use compliance_framework.Policy.DbRules.{
  Db, PatternRow, requires_approval, rate_limit_per_session, deny_patterns,
}
use compliance_framework.Policy.DbRules.Queries.{
  tool_exists_iff, Allows, allowed_functions_iff, IsActive, active_roles_iff,
  deny_patterns-AllItems_iff,
}
use compliance_framework.Policy.DbEngine.Gated.{Gated, IsOpen-iff, IsSeen, IsVisible-iff}
use compliance_framework.Policy.DbEngine.{checks, evaluate}

-- A row of deny-patterns leaves the call alone.
abbrev pub Spares : Runtime → ToolRequest → PatternRow → Type 0
Spares py request row =
    row.tool_name ≡ request.tool_name
    → (v : Value) → not_none (lookup row.param_name request.parameters) ≡ some v
    → py.search row.pattern (str_value py.repr v) ≡ ok false

All-swap :
    (P : Value → Type 0) (Q : Value → String → Type 0) (xs : List String)
    → ((v : Value) → P v → All (Q v) xs) ↔ All (λ x. (v : Value) → P v → Q v x) xs
All-swap P Q [] = (λ h. tt, λ h v p. tt)
All-swap P Q (x ∷ xs) =
    let ih = All-swap P Q xs in
    (λ h. (λ v p. (h v p).0, ih.0 (λ v p. (h v p).1)), λ h v p. (h.0 v p, ih.1 h.1 v p))

-- What a deny-pattern demands of the parameter that it is for.
Unmatched : Runtime → Dict Value → String → String → Type 0
Unmatched py given name pattern =
    (v : Value)
    → not_none (lookup name given) ≡ some v
    → py.search pattern (str_value py.repr v) ≡ ok false

-- The grouped deny-patterns are clean exactly when each row spares the call.
IsClean-iff :
    (py : Runtime) (store : Db) (request : ToolRequest)
    → All (IsClean py request.parameters) (deny_patterns store request.tool_name)
      ↔ All (Spares py request) store.parameter_deny_patterns
unfolding Unmatched
IsClean-iff py store request =
    let given = request.parameters in
    let grouped = deny_patterns store request.tool_name in
    let entries =
      All-iff (IsClean py given) (λ entry. All (Unmatched py given entry.0) entry.1)
        (λ (name, patterns).
          All-swap (λ v. not_none (lookup name given) ≡ some v)
            (λ v pattern. py.search pattern (str_value py.repr v) ≡ ok false) patterns)
        grouped in
    let rows = deny_patterns-AllItems_iff (Unmatched py given) store request.tool_name in
    (λ h. rows.0 (entries.0 h), λ h. entries.1 (rows.1 h))

module _ (py : Runtime) (store : Db) (counter : String → Result ℤ) where
  -- What the rows of the store demand of a call, with the number of calls so far and the limit.
  pub record Permits (context : ExecutionContext) (request : ToolRequest) (calls limit : ℤ)
      : Type 0 where
    pub identity : HasIdentity py context ("user_id" ∷ "agent_id" ∷ "roles" ∷ [])
    pub active : Some (IsActive context.roles) store.roles
    pub listed : In request.tool_name store.tools
    pub visible : IsSeen context.roles request.tool_name store.tool_visibility_roles
    pub function : Some (Allows request.tool_name request.function_name) store.tool_functions
    pub clean : All (Spares py request) store.parameter_deny_patterns
    pub gated : All (Gated py store context.roles request) store.parameter_role_gates
    pub counted : counter context.session_id ≡ ok calls
    pub limited : rate_limit_per_session py store ≡ ok limit
    pub below : ¬ (limit ≤ℤ calls)

  abbrev pub decision_for : ToolRequest → PolicyDecision
  decision_for request = approve (requires_approval store request.tool_name request.function_name)

  checks_sound :
      (context : ExecutionContext) (request : ToolRequest) (d : PolicyDecision)
      → checks py store counter context request ≡ pass d
      → (calls : ℤ) × (limit : ℤ) × Permits context request calls limit × (d ≡ decision_for request)
  unfolding checks
  checks_sound context request d h0 =
      let (identity, h1) = >>-eq-pass _ _ h0 in
      let (active, h2) = >>-eq-pass _ _ h1 in
      let (listed, h3) = >>-eq-pass _ _ h2 in
      let (visible, h4) = >>-eq-pass _ _ h3 in
      let (function, h5) = >>-eq-pass _ _ h4 in
      let (clean, h6) = >>-eq-pass _ _ h5 in
      let (gated, h7) = >>-eq-pass _ _ h6 in
      let (calls, counted, h8) = >>=-eq-pass (lift (counter context.session_id)) _ h7 in
      let (limit, limited, h9) = >>=-eq-pass (lift (rate_limit_per_session py store)) _ h8 in
      let (below, h10) = >>-eq-pass _ _ h9 in
      (
        calls,
        limit,
        record {
          identity = (check_identity-eq-pass_iff py context _).0 identity;
          active =
              (active_roles_iff store context.roles).0
                ((has_one_of_iff _ _).0 ((require-eq-pass_iff _ _).0 active));
          listed = (tool_exists_iff store _).0 ((require-eq-pass_iff _ _).0 listed);
          visible =
              (IsVisible-iff store context.roles request.tool_name).0
                ((is_visible_iff context.roles _).0 ((require-eq-pass_iff _ _).0 visible));
          function =
              (allowed_functions_iff store _ _).0
                ((member_iff _ _).0 ((require-eq-pass_iff _ _).0 function));
          clean =
              (IsClean-iff py store request).0
                ((check_parameters-eq-pass_iff py request.parameters _).0 clean);
          gated =
              (IsOpen-iff py store context.roles request).0
                ((check_gates-eq-pass_iff py context.roles request.parameters _).0 gated);
          counted = lift-eq-pass _ counted;
          limited = lift-eq-pass _ limited;
          below = (check_rate-eq-pass_iff calls _).0 below;
        },
        ground arith,
      )

  checks_complete :
      (context : ExecutionContext) (request : ToolRequest) (calls limit : ℤ)
      → Permits context request calls limit
      → checks py store counter context request ≡ pass (decision_for request)
  unfolding checks
  checks_complete context request calls limit p = rw (
    (check_identity-eq-pass_iff py context _).1 p.identity,
    (has_one_of_iff _ _).1 ((active_roles_iff store context.roles).1 p.active),
    (tool_exists_iff store _).1 p.listed,
    (is_visible_iff context.roles _).1
        ((IsVisible-iff store context.roles request.tool_name).1 p.visible),
    (member_iff _ _).1 ((allowed_functions_iff store _ _).1 p.function),
    (check_parameters-eq-pass_iff py request.parameters _).1
        ((IsClean-iff py store request).1 p.clean),
    (check_gates-eq-pass_iff py context.roles request.parameters _).1
        ((IsOpen-iff py store context.roles request).1 p.gated),
    p.counted,
    p.limited,
    (check_rate-eq-pass_iff calls _).1 p.below,
  )

  -- The engine answers with an approval exactly when the rows of the store permit the call: the
  -- identity is complete, a role of the context is active, the tool has a row, no row restricts who
  -- sees the tool or one does that names a role of the context, a row allows the function, every row
  -- of deny-patterns spares the parameters, for every row of role gates whose parameter the call gives
  -- the row's value some row of that gate has a role of the context, and the session has calls left;
  -- and the approval then asks for a human exactly when the store says that the function requires it.
  pub db_evaluate_allows_iff :
      (context : ExecutionContext) (request : ToolRequest) (d : PolicyDecision)
      → ((evaluate py store counter context request ≡ ok d) × (d.allowed ≡ true)) ↔ (
          (calls : ℤ) × (limit : ℤ) × Permits context request calls limit
          × (d ≡ decision_for request))
  unfolding evaluate
  db_evaluate_allows_iff context request d =
      let same = wrap-settle_iff (checks py store counter context request) d in
      (
        λ h. checks_sound context request d (same.0 h).0,
        λ (calls, limit, p, e). same.1 (
          checks_complete context request calls limit p ∙ ap pass (sym e),
          ap (λ (x : PolicyDecision). x.allowed) e ∙ allowed-approve _,
        ),
      )
