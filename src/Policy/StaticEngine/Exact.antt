-- ===== src/Policy/StaticEngine/Exact.antt =====
-- Exactly which tool calls the static engine allows.
use compliance_framework.Prelude.{
  String, true, ◌≡◌, ◌↔◌, ◌⊎◌, some, member, member_iff, In, All, lookup, List, [], ◌∷◌, Result, ok,
  ℤ, ◌≤ℤ◌, arith, ◌∙◌, ap, sym,
}
use compliance_framework.Models.{ExecutionContext, ToolRequest, PolicyDecision}
use compliance_framework.Runtime.{Runtime}
use compliance_framework.Policy.Rules.{ToolRule, PolicyRuleSet}
use compliance_framework.Policy.Checks.{pass, approve, lift}
use compliance_framework.Policy.Checks.Laws.{
  >>=-eq-pass, >>-eq-pass, require-eq-pass_iff, lift-eq-pass, HasOneOf, has_one_of_iff, HasIdentity,
  check_identity-eq-pass_iff, IsClean, check_parameters-eq-pass_iff, IsOpen,
  check_gates-eq-pass_iff, check_rate-eq-pass_iff, wrap-settle_iff, allowed-approve,
}
use compliance_framework.Policy.StaticEngine.{check_tool, is_visible, checks, evaluate}

-- The tool is open to everybody, or to one of the roles.
abbrev pub IsVisible : List String → List String → Type 0
IsVisible roles visible = (visible ≡ []) ⊎ HasOneOf roles visible

pub is_visible_iff :
    (roles visible : List String) → (is_visible roles visible ≡ true) ↔ IsVisible roles visible
unfolding is_visible
is_visible_iff roles [] = ground arith
is_visible_iff roles (v ∷ vs) = ground (arith, has_one_of_iff roles (v ∷ vs))

pub check_tool-eq-pass_iff :
    (rules : PolicyRuleSet) (tool : String) (rule : ToolRule)
    → (check_tool rules tool ≡ pass rule)
      ↔ (In tool rules.allowed_tools × (lookup tool rules.tools ≡ some rule))
unfolding check_tool
check_tool-eq-pass_iff rules tool rule = ground (arith, member_iff tool rules.allowed_tools)

module _ (py : Runtime) (rules : PolicyRuleSet) (counter : String → Result ℤ) where
  -- What the rules demand of a call, with the rule of its tool and the number of calls so far.
  pub record Permits (context : ExecutionContext) (request : ToolRequest) (rule : ToolRule)
      (calls : ℤ) : Type 0 where
    pub identity : HasIdentity py context rules.identity_required_fields
    pub listed : In request.tool_name rules.allowed_tools
    pub ruled : lookup request.tool_name rules.tools ≡ some rule
    pub visible : IsVisible context.roles rule.visible_to_roles
    pub function : In request.function_name rule.allowed_functions
    pub clean : All (IsClean py request.parameters) rule.parameter_deny_patterns
    pub gated : All (IsOpen py context.roles request.parameters) rule.requires_role_for
    pub counted : counter context.session_id ≡ ok calls
    pub below : ¬ (rules.rate_limit_per_session ≤ℤ calls)

  abbrev pub decision_for : ToolRule → ToolRequest → PolicyDecision
  decision_for rule request =
      approve (member request.function_name rule.requires_approval_functions)

  checks_sound :
      (context : ExecutionContext) (request : ToolRequest) (d : PolicyDecision)
      → checks py rules counter context request ≡ pass d
      → (rule : ToolRule) × (calls : ℤ) × Permits context request rule calls
        × (d ≡ decision_for rule request)
  unfolding checks
  checks_sound context request d h0 =
      let (identity, h1) = >>-eq-pass _ _ h0 in
      let (rule, tool, h2) = >>=-eq-pass (check_tool rules request.tool_name) _ h1 in
      let (visible, h3) = >>-eq-pass _ _ h2 in
      let (function, h4) = >>-eq-pass _ _ h3 in
      let (clean, h5) = >>-eq-pass _ _ h4 in
      let (gated, h6) = >>-eq-pass _ _ h5 in
      let (calls, counted, h7) = >>=-eq-pass (lift (counter context.session_id)) _ h6 in
      let (below, h8) = >>-eq-pass _ _ h7 in
      let known = (check_tool-eq-pass_iff rules request.tool_name rule).0 tool in
      (
        rule,
        calls,
        record {
          identity = (check_identity-eq-pass_iff py context _).0 identity;
          listed = known.0;
          ruled = known.1;
          visible = (is_visible_iff context.roles _).0 ((require-eq-pass_iff _ _).0 visible);
          function = (member_iff _ _).0 ((require-eq-pass_iff _ _).0 function);
          clean = (check_parameters-eq-pass_iff py request.parameters _).0 clean;
          gated = (check_gates-eq-pass_iff py context.roles request.parameters _).0 gated;
          counted = lift-eq-pass _ counted;
          below = (check_rate-eq-pass_iff calls _).0 below;
        },
        ground arith,
      )

  checks_complete :
      (context : ExecutionContext) (request : ToolRequest) (rule : ToolRule) (calls : ℤ)
      → Permits context request rule calls
      → checks py rules counter context request ≡ pass (decision_for rule request)
  unfolding checks
  checks_complete context request rule calls p = rw (
    (check_identity-eq-pass_iff py context _).1 p.identity,
    (check_tool-eq-pass_iff rules request.tool_name rule).1 (p.listed, p.ruled),
    (is_visible_iff context.roles _).1 p.visible,
    (member_iff request.function_name rule.allowed_functions).1 p.function,
    (check_parameters-eq-pass_iff py request.parameters _).1 p.clean,
    (check_gates-eq-pass_iff py context.roles request.parameters _).1 p.gated,
    p.counted,
    (check_rate-eq-pass_iff calls _).1 p.below,
  )

  -- The engine answers with an approval exactly when the identity, tool, visibility, function,
  -- parameter, role-gate and rate-limit rules all permit the call; and the approval then asks for a
  -- human exactly when the tool's rule lists the function.
  pub evaluate_allows_iff :
      (context : ExecutionContext) (request : ToolRequest) (d : PolicyDecision)
      → ((evaluate py rules counter context request ≡ ok d) × (d.allowed ≡ true)) ↔ (
          (rule : ToolRule) × (calls : ℤ) × Permits context request rule calls
          × (d ≡ decision_for rule request))
  unfolding evaluate
  evaluate_allows_iff context request d =
      let same = wrap-settle_iff (checks py rules counter context request) d in
      (
        λ h. checks_sound context request d (same.0 h).0,
        λ (rule, calls, p, e). same.1 (
          checks_complete context request rule calls p ∙ ap pass (sym e),
          ap (λ (x : PolicyDecision). x.allowed) e ∙ allowed-approve _,
        ),
      )
