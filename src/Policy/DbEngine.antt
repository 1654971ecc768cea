-- ===== src/Policy/DbEngine.antt =====
-- policy/db_engine.py. The rules are read live from the store, at each check.
pub mod Exact
pub mod Gated
use compliance_framework.Prelude.{
  String, ◌<>◌, Bool, any, member, List, [], ◌∷◌, Result, ok, raise, ℤ,
}
use compliance_framework.Models.{repr_texts, ExecutionContext, ToolRequest, PolicyDecision}
use compliance_framework.Runtime.{Runtime}
use compliance_framework.Policy.Checks.{
  Check, pass, ◌>>=◌, ◌>>◌, lift, require, settle, check_identity, has_one_of, check_parameters,
  check_gates, check_rate, approve, wrap,
}
use compliance_framework.Policy.DbRules.{
  Db, active_roles, tool_exists, visibility_roles, allowed_functions, requires_approval,
  deny_patterns, role_gates, rate_limit_per_session,
}
use compliance_framework.Policy.StaticEngine.{is_visible}

module _ (py : Runtime) (store : Db) (counter : String → Result ℤ) where
  unfoldable pub checks : ExecutionContext → ToolRequest → Check PolicyDecision
  checks context request = do
    check_identity py context ("user_id" ∷ "agent_id" ∷ "roles" ∷ [])
    require (has_one_of context.roles (active_roles store)) (
        "no active platform role for context roles "
        <> repr_texts py.repr context.roles
        <> ": global RBAC denied")
    require (tool_exists store request.tool_name)
        ("tool not permitted: '" <> request.tool_name <> "'")
    let visible = visibility_roles store request.tool_name
    require (is_visible context.roles visible)
        ("tool '" <> request.tool_name <> "' requires one of roles " <> repr_texts py.repr visible)
    require (member request.function_name (allowed_functions store request.tool_name))
        ("function not permitted: '" <> request.tool_name <> "." <> request.function_name <> "'")
    check_parameters py request.parameters (deny_patterns store request.tool_name)
    check_gates py context.roles request.parameters (role_gates store request.tool_name)
    calls ← lift (counter context.session_id)
    limit ← lift (rate_limit_per_session py store)
    check_rate calls limit
    pass (approve (requires_approval store request.tool_name request.function_name))

  -- `evaluate_tool_call`
  unfoldable pub evaluate : ExecutionContext → ToolRequest → Result PolicyDecision
  evaluate context request = wrap (settle (checks context request))
