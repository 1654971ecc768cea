-- ===== src/Policy/StaticEngine.antt =====
-- policy/static_engine.py
pub mod Exact
pub mod Roles
use compliance_framework.Prelude.{
  String, ◌<>◌, Bool, true, false, ◌||◌, not, Option, none, some, member, truthy, lookup, List, [],
  ◌∷◌, Dict, Exn, Result, ok, raise, ℤ, if◌then◌else◌,
}
use compliance_framework.Models.{repr_texts, ExecutionContext, ToolRequest, PolicyDecision}
use compliance_framework.Runtime.{Runtime}
use compliance_framework.Policy.Checks.{
  Check, pass, deny, ◌>>=◌, ◌>>◌, lift, require, settle, check_identity, has_one_of,
  check_parameters, check_gates, check_rate, approve, wrap,
}
use compliance_framework.Policy.Rules.{ToolRule, PolicyRuleSet}

-- tool-level access
unfoldable pub check_tool : PolicyRuleSet → String → Check ToolRule
check_tool rules tool =
    if member tool rules.allowed_tools
    then (elim (lookup tool rules.tools) [
      | none ↦ deny ("tool not permitted: '" <> tool <> "'")
      | some rule ↦ pass rule
    ])
    else deny ("tool not permitted: '" <> tool <> "'")

-- `visible_to_roles`: an empty list lets everybody see the tool
unfoldable pub is_visible : List String → List String → Bool
is_visible roles visible = not (truthy visible) || has_one_of roles visible

module _ (py : Runtime) (rules : PolicyRuleSet) (counter : String → Result ℤ) where
  unfoldable pub checks : ExecutionContext → ToolRequest → Check PolicyDecision
  checks context request = do
    check_identity py context rules.identity_required_fields
    rule ← check_tool rules request.tool_name
    require (is_visible context.roles rule.visible_to_roles) (
        "tool '"
        <> request.tool_name
        <> "' requires one of roles "
        <> repr_texts py.repr rule.visible_to_roles)
    require (member request.function_name rule.allowed_functions)
        ("function not permitted: '" <> request.tool_name <> "." <> request.function_name <> "'")
    check_parameters py request.parameters rule.parameter_deny_patterns
    check_gates py context.roles request.parameters rule.requires_role_for
    calls ← lift (counter context.session_id)
    check_rate calls rules.rate_limit_per_session
    pass (approve (member request.function_name rule.requires_approval_functions))

  -- `evaluate_tool_call`
  unfoldable pub evaluate : ExecutionContext → ToolRequest → Result PolicyDecision
  evaluate context request = wrap (settle (checks context request))
