-- ===== src/Policy/Parity.antt =====
-- Moving a deployment from the static engine to the database-backed one: a store that mirrors the
-- rules gives the same answers.
use compliance_framework.Prelude.{
  String, true, false, ◌≡◌, ◌⊎◌, inl, inr, Bool-cases, member, member_iff, In, lookup, none, some,
  [], ◌∷◌, Result, ok, ℤ, ap,
}
use compliance_framework.Models.{ExecutionContext, ToolRequest}
use compliance_framework.Runtime.{Runtime}
use compliance_framework.Policy.Rules.{ToolRule, PolicyRuleSet}
use compliance_framework.Policy.Checks.{has_one_of, wrap, settle}
use compliance_framework.Policy.DbRules.{
  Db, active_roles, tool_exists, visibility_roles, allowed_functions, requires_approval,
  deny_patterns, role_gates, rate_limit_per_session,
}
use compliance_framework.Policy.StaticEngine
use compliance_framework.Policy.StaticEngine.{check_tool, is_visible}
use compliance_framework.Policy.DbEngine

-- The rows of a tool say what its rule says.
pub record ToolMirrors (store : Db) (rules : PolicyRuleSet) (tool : String) (rule : ToolRule)
    : Type 0 where
  pub listed : In tool rules.allowed_tools
  pub ruled : lookup tool rules.tools ≡ some rule
  pub exists : tool_exists store tool ≡ true
  pub visible : visibility_roles store tool ≡ rule.visible_to_roles
  pub functions : allowed_functions store tool ≡ rule.allowed_functions
  pub patterns : deny_patterns store tool ≡ rule.parameter_deny_patterns
  pub gates : role_gates store tool ≡ rule.requires_role_for
  pub approvals :
      (function : String)
      → In function rule.allowed_functions
      → requires_approval store tool function ≡ member function rule.requires_approval_functions

-- Neither the store nor the rules know the tool.
pub record NeitherKnows (store : Db) (rules : PolicyRuleSet) (tool : String) : Type 0 where
  pub absent : tool_exists store tool ≡ false
  pub unruled : (member tool rules.allowed_tools ≡ false) ⊎ (lookup tool rules.tools ≡ none)

pub record Mirrors (py : Runtime) (store : Db) (rules : PolicyRuleSet) : Type 0 where
  pub fields : rules.identity_required_fields ≡ "user_id" ∷ "agent_id" ∷ "roles" ∷ []
  pub limit : rate_limit_per_session py store ≡ ok rules.rate_limit_per_session
  pub tools :
      (tool : String)
      → NeitherKnows store rules tool ⊎ ((rule : ToolRule) × ToolMirrors store rules tool rule)

module _ (py : Runtime) (store : Db) (rules : PolicyRuleSet) (counter : String → Result ℤ)
    (context : ExecutionContext) (request : ToolRequest) (mirrors : Mirrors py store rules)
    (active : has_one_of context.roles (active_roles store) ≡ true) where
  checks_unknown :
      NeitherKnows store rules request.tool_name
      → DbEngine.checks py store counter context request
        ≡ StaticEngine.checks py rules counter context request
  unfolding DbEngine.checks StaticEngine.checks check_tool
  checks_unknown n =
      rw (active, n.absent, mirrors.fields)
        (elim n.unruled [
          | inl unlisted ↦ rw unlisted
          | inr missing ↦ elim (Bool-cases (member request.tool_name rules.allowed_tools)) [
            | inl listed ↦ rw (listed, missing)
            | inr unlisted ↦ rw unlisted
          ]
        ])

  checks_known :
      (rule : ToolRule)
      → ToolMirrors store rules request.tool_name rule
      → DbEngine.checks py store counter context request
        ≡ StaticEngine.checks py rules counter context request
  unfolding DbEngine.checks StaticEngine.checks check_tool
  checks_known rule m =
      rw
        (
          active,
          m.exists,
          mirrors.fields,
          m.visible,
          m.functions,
          m.patterns,
          m.gates,
          mirrors.limit,
          (member_iff request.tool_name rules.allowed_tools).1 m.listed,
          m.ruled,
        )
        (elim (Bool-cases (member request.function_name rule.allowed_functions)) [
          | inl allowed ↦ rw (m.approvals request.function_name ((member_iff _ _).0 allowed))
          | inr not_allowed ↦ rw not_allowed
        ])

  -- If the store mirrors the rules, the database-backed engine gives a context with an active role
  -- the very answer of the static engine: the same decision and reason, or the same exception.
  pub evaluate-mirrors :
      DbEngine.evaluate py store counter context request
      ≡ StaticEngine.evaluate py rules counter context request
  unfolding DbEngine.evaluate StaticEngine.evaluate
  evaluate-mirrors =
      ap (λ m. wrap (settle m))
        (elim (mirrors.tools request.tool_name) [
          | inl n ↦ checks_unknown n
          | inr (rule, m) ↦ checks_known rule m
        ])
