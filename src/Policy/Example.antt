-- ===== src/Policy/Example.antt =====
-- configs/policy.example.yaml, as `load_ruleset` of policy/rules.py reads it.
use compliance_framework.Prelude.{[], ◌∷◌, pos}
use compliance_framework.Policy.Rules.{ToolRule, PolicyRuleSet}

abbrev pub search_rule : ToolRule
search_rule = record {
  tool_name = "search_tool";
  allowed_functions = "query" ∷ [];
  visible_to_roles = [];
  parameter_deny_patterns = [];
  requires_role_for = [];
  requires_approval_functions = [];
}

abbrev pub sql_rule : ToolRule
sql_rule = record {
  tool_name = "sql_tool";
  allowed_functions = "ExecuteReadOnlyQuery" ∷ "UpdateCustomerRecord" ∷ [];
  visible_to_roles = [];
  parameter_deny_patterns = ("query", "(?i)(DROP|DELETE|TRUNCATE|ALTER)" ∷ []) ∷ [];
  requires_role_for = [];
  requires_approval_functions = [];
}

abbrev pub deploy_rule : ToolRule
deploy_rule = record {
  tool_name = "deploy_tool";
  allowed_functions = "deploy" ∷ [];
  visible_to_roles = "DeployEngineer" ∷ "ProductionAdmin" ∷ [];
  parameter_deny_patterns = [];
  requires_role_for = ("environment=production", "ProductionAdmin" ∷ []) ∷ [];
  requires_approval_functions = "deploy" ∷ [];
}

abbrev pub example_rules : PolicyRuleSet
example_rules = record {
  identity_required_fields = "user_id" ∷ "agent_id" ∷ "roles" ∷ [];
  allowed_tools = "search_tool" ∷ "sql_tool" ∷ "deploy_tool" ∷ [];
  tools = ("search_tool", search_rule) ∷ ("sql_tool", sql_rule) ∷ ("deploy_tool", deploy_rule) ∷ [];
  rate_limit_per_session = pos 50;
}
