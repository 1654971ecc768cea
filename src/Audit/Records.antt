-- ===== src/Audit/Records.antt =====
-- audit/models.py
use compliance_framework.Prelude.{String, Option, none, some, List, [], ◌∷◌, map, Dict}
use compliance_framework.Models.{Value, null, str, arr, obj, dict, texts}

pub record RedactedContext : Type 0 where
  pub user_id : String
  pub agent_id : String
  pub session_id : String
  pub roles : List String

pub record RedactedRequest : Type 0 where
  pub tool_name : String
  pub function_name : String
  pub call_id : String
  pub parameters : Dict String

pub record AuditRecord : Type 0 where
  pub record_id : String
  pub timestamp : String
  pub call_id : String
  pub context : RedactedContext
  pub request : RedactedRequest
  pub decision : Dict Value
  pub sandbox_result : Option (Dict Value)
  pub prev_hash : String
  pub record_hash : String

dump_context : RedactedContext → Dict Value
dump_context c =
    ("user_id", str c.user_id)
    ∷ ("agent_id", str c.agent_id)
    ∷ ("session_id", str c.session_id)
    ∷ ("roles", arr (texts c.roles))
    ∷ []

dump_request : RedactedRequest → Dict Value
dump_request r =
    ("tool_name", str r.tool_name)
    ∷ ("function_name", str r.function_name)
    ∷ ("call_id", str r.call_id)
    ∷ ("parameters", obj (dict (map (λ (k, v). (k, str v)) r.parameters)))
    ∷ []

or_null : Option (Dict Value) → Value
or_null none = null
or_null (some d) = obj (dict d)

-- `record.model_dump(exclude={"record_hash"})`
unfoldable pub payload : AuditRecord → Value
unfolding dump_context dump_request or_null
payload r = obj (
    dict (
      ("record_id", str r.record_id)
      ∷ ("timestamp", str r.timestamp)
      ∷ ("call_id", str r.call_id)
      ∷ ("context", obj (dict (dump_context r.context)))
      ∷ ("request", obj (dict (dump_request r.request)))
      ∷ ("decision", obj (dict r.decision))
      ∷ ("sandbox_result", or_null r.sandbox_result)
      ∷ ("prev_hash", str r.prev_hash)
      ∷ []))
