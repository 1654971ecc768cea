-- ===== src/Policy/DbRules.antt =====
-- policy/db_rules.py. A table is the list of its rows, in the order in which the database returns
-- them; a query filters it. `connect` opens the database: its schema is the record `Db`.
pub mod Queries
pub mod Groups
use Prim.Native.Char.{Char, code}
use compliance_framework.Prelude.{
  eqb, ℕ, String, ◌<>◌, Bool, true, false, ◌&&◌, not, Option, none, some, ◌==◌, eqb, any, filter,
  lookup, insert, List, [], ◌∷◌, ◌++◌, map, Dict, Result, ok, ℤ, pos, str_int, if◌then◌else◌,
}
use compliance_framework.Runtime.{Runtime}

pub record RoleRow : Type 0 where
  pub role_name : String
  pub active : ℕ

pub record VisibilityRow : Type 0 where
  pub tool_name : String
  pub role_name : String

pub record FunctionRow : Type 0 where
  pub tool_name : String
  pub function_name : String
  pub requires_approval : ℕ

pub record PatternRow : Type 0 where
  pub tool_name : String
  pub param_name : String
  pub pattern : String

pub record GateRow : Type 0 where
  pub tool_name : String
  pub param_name : String
  pub param_value : String
  pub required_role : String

pub record Db : Type 0 where
  pub roles : List RoleRow
  pub tools : List String
  pub tool_visibility_roles : List VisibilityRow
  pub tool_functions : List FunctionRow
  pub parameter_deny_patterns : List PatternRow
  pub parameter_role_gates : List GateRow
  pub settings : Dict String

-- The database that `connect` makes where there was none.
abbrev pub empty : Db
empty = record {
  roles = [];
  tools = [];
  tool_visibility_roles = [];
  tool_functions = [];
  parameter_deny_patterns = [];
  parameter_role_gates = [];
  settings = [];
}

abbrev pub default_rate_limit : ℤ
default_rate_limit = pos 50

abbrev active_role : String → RoleRow
active_role r = record { role_name = r; active = 1 }

abbrev function_row : String → String → ℕ → FunctionRow
function_row t f a = record { tool_name = t; function_name = f; requires_approval = a }

-- `seed_example` deletes all rows first, so what the database held does not matter.
unfoldable pub seed_example : Db → Db
unfolding str_int
seed_example conn = record {
  roles =
      active_role "AgentExecutor"
      ∷ active_role "DeployEngineer"
      ∷ active_role "ProductionAdmin"
      ∷ [];
  tools = "search_tool" ∷ "sql_tool" ∷ "deploy_tool" ∷ [];
  tool_functions =
      function_row "search_tool" "query" 0
      ∷ function_row "sql_tool" "ExecuteReadOnlyQuery" 0
      ∷ function_row "sql_tool" "UpdateCustomerRecord" 0
      ∷ function_row "deploy_tool" "deploy" 1
      ∷ [];
  tool_visibility_roles =
      record { tool_name = "deploy_tool"; role_name = "DeployEngineer" }
      ∷ record { tool_name = "deploy_tool"; role_name = "ProductionAdmin" }
      ∷ [];
  parameter_deny_patterns =
      record {
        tool_name = "sql_tool";
        param_name = "query";
        pattern = "(?i)(DROP|DELETE|TRUNCATE|ALTER)";
      }
      ∷ [];
  parameter_role_gates =
      record {
        tool_name = "deploy_tool";
        param_name = "environment";
        param_value = "production";
        required_role = "ProductionAdmin";
      }
      ∷ [];
  settings =
      ("rate_limit_per_session", str_int default_rate_limit)
      ∷ ("identity_required_fields", "user_id,agent_id,roles")
      ∷ [];
}

-- `result.setdefault(key, []).append(item)`
unfoldable pub append_at : String → String → Dict (List String) → Dict (List String)
append_at key item [] = (key, item ∷ []) ∷ []
append_at key item ((j, items) ∷ d) =
    let rest = append_at key item d in
    if j == key then (j, items ++ item ∷ []) ∷ d else (j, items) ∷ rest

-- The loop that groups the rows of a query by a key.
unfoldable pub group : Dict (List String) → List (String × String) → Dict (List String)
group result [] = result
group result ((key, item) ∷ rows) = group (append_at key item result) rows

unfoldable pub active_roles : Db → List String
active_roles db = map (λ (r : RoleRow). r.role_name) (filter (λ r. eqb r.active 1) db.roles)

unfoldable pub tool_exists : Db → String → Bool
tool_exists db tool = any (λ t. t == tool) db.tools

unfoldable pub tool_names : Db → List String
tool_names db = db.tools

unfoldable pub visibility_roles : Db → String → List String
visibility_roles db tool =
    map (λ (r : VisibilityRow). r.role_name)
      (filter (λ r. r.tool_name == tool) db.tool_visibility_roles)

unfoldable pub allowed_functions : Db → String → List String
allowed_functions db tool =
    map (λ (r : FunctionRow). r.function_name) (filter (λ r. r.tool_name == tool) db.tool_functions)

-- `bool(row["requires_approval"]) if row else False`, for the first row
first_approval : List FunctionRow → Bool
first_approval [] = false
first_approval (r ∷ rows) = not (eqb r.requires_approval 0)

unfoldable pub requires_approval : Db → String → String → Bool
unfolding first_approval
requires_approval db tool function =
    first_approval
      (filter (λ r. r.tool_name == tool && r.function_name == function) db.tool_functions)

unfoldable pub deny_patterns : Db → String → Dict (List String)
deny_patterns db tool = group [] (
    map (λ (r : PatternRow). (r.param_name, r.pattern))
      (filter (λ r. r.tool_name == tool) db.parameter_deny_patterns))

unfoldable pub role_gates : Db → String → Dict (List String)
role_gates db tool = group [] (
    map (λ (r : GateRow). (r.param_name <> "=" <> r.param_value, r.required_role))
      (filter (λ r. r.tool_name == tool) db.parameter_role_gates))

unfoldable pub rate_limit_per_session : Runtime → Db → Result ℤ
rate_limit_per_session py db = elim (lookup "rate_limit_per_session" db.settings) [
  | none ↦ ok default_rate_limit
  | some value ↦ py.int_of value
]

-- Puts a character in front of the first of the texts.
abbrev pub extend : Char → List String → List String
extend c [] = String.◌∷◌ c String.[] ∷ []
extend c (s ∷ ss) = String.◌∷◌ c s ∷ ss

-- `text.split(",")`: the text up to its first comma, and those behind it
unfoldable pub split_commas : String → List String
split_commas String.[] = "" ∷ []
split_commas (String.◌∷◌ c s) =
    let rest = split_commas s in if eqb (code c) b',' then "" ∷ rest else extend c rest

abbrev pub default_identity_fields : List String
default_identity_fields = "user_id" ∷ "agent_id" ∷ "roles" ∷ []

unfoldable pub identity_required_fields : Db → List String
identity_required_fields db = elim (lookup "identity_required_fields" db.settings) [
  | none ↦ default_identity_fields
  | some value ↦ split_commas value
]
