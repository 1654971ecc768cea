-- ===== src/Policy/Rules.antt =====
-- policy/rules.py. What reads a file, the YAML package and the validation are parameters.
use compliance_framework.Prelude.{String, List, Dict, ℤ, Result, ◌>>=◌}

pub record ToolRule : Type 0 where
  pub tool_name : String
  pub allowed_functions : List String
  pub visible_to_roles : List String
  pub parameter_deny_patterns : Dict (List String)
  pub requires_role_for : Dict (List String)
  pub requires_approval_functions : List String

pub record PolicyRuleSet : Type 0 where
  pub identity_required_fields : List String
  pub allowed_tools : List String
  pub tools : Dict ToolRule
  pub rate_limit_per_session : ℤ

-- `Path.read_text` may raise, and so may the YAML package and pydantic's validation.
unfoldable pub load_ruleset :
    {A : Type 0}
    → (read_text : String → Result String) → (safe_load : String → Result A)
    → (model_validate : A → Result PolicyRuleSet) → String
    → Result PolicyRuleSet
load_ruleset read_text safe_load model_validate path = do
  text ← read_text path
  raw ← safe_load text
  model_validate raw
