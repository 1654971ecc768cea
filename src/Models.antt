-- ===== src/Models.antt =====
-- models.py, and the values that its `Any` fields hold.
mod Values
pub use Values.{
  Value, null, bool, int, float, str, arr, obj, Items, nil, cons, Fields, end, pair, fields, dict,
  texts,
}
unfoldable pub use Values.{str_value, repr_texts, not_none}
use compliance_framework.Prelude.{
  String, ◌<>◌, ℕ, Bool, Option, none, some, List, [], ◌∷◌, Dict, ℤ, str_nat,
}

pub record ExecutionContext : Type 0 where
  pub user_id : String
  pub agent_id : String
  pub session_id : String
  pub roles : List String
  pub delegated_scopes : List String
  pub metadata : Dict Value

pub record ToolRequest : Type 0 where
  pub tool_name : String
  pub function_name : String
  pub parameters : Dict Value
  pub call_id : String

pub record PolicyDecision : Type 0 where
  pub allowed : Bool
  pub reason : String
  pub modified_parameters : Option (Dict Value)
  pub action_requirements : List String

-- `PolicyDecision(allowed=…, reason=…)`, the other fields at their defaults.
abbrev pub decide_as : Bool → String → PolicyDecision
decide_as allowed reason = record {
  allowed = allowed;
  reason = reason;
  modified_parameters = none;
  action_requirements = [];
}

-- sandbox/base.py. A duration is a whole number of milliseconds.
pub record SandboxResult : Type 0 where
  pub stdout : String
  pub stderr : String
  pub exit_code : ℤ
  pub duration_ms : ℕ
  pub timed_out : Bool

or_null : Option (Dict Value) → Value
or_null none = null
or_null (some d) = obj (dict d)

-- `decision.model_dump()`
unfoldable pub dump_decision : PolicyDecision → Dict Value
unfolding or_null
dump_decision d =
    ("allowed", bool d.allowed)
    ∷ ("reason", str d.reason)
    ∷ ("modified_parameters", or_null d.modified_parameters)
    ∷ ("action_requirements", arr (texts d.action_requirements))
    ∷ []

-- `sandbox_result.model_dump()`
unfoldable pub dump_result : SandboxResult → Dict Value
unfolding str_nat
dump_result r =
    ("stdout", str r.stdout)
    ∷ ("stderr", str r.stderr)
    ∷ ("exit_code", int r.exit_code)
    ∷ ("duration_ms", float (str_nat r.duration_ms <> ".0"))
    ∷ ("timed_out", bool r.timed_out)
    ∷ []
