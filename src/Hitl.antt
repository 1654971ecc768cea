-- ===== src/Hitl.antt =====
-- hitl/approval.py
use compliance_framework.Prelude.{
  String, Bool, Option, none, some, List, [], ◌∷◌, ◌++◌, Dict, lookup, insert, Exec, ok,
}
use compliance_framework.Models.{ExecutionContext, ToolRequest, PolicyDecision}

pub record Review : Type 0 where
  pub context : ExecutionContext
  pub request : ToolRequest
  pub decision : PolicyDecision

-- `InMemoryApprovalQueue`
pub record ApprovalQueue : Type 0 where
  pub decisions : Dict Bool
  pub default : Bool
  pub received : List Review

unfoldable pub set_decision : String → Bool → ApprovalQueue → ApprovalQueue
set_decision call_id approved q = record q { decisions = insert call_id approved q.decisions }

abbrev pub get_or : Option Bool → Bool → Bool
get_or none d = d
get_or (some b) d = b

-- `__call__`
unfoldable pub review : ExecutionContext → ToolRequest → PolicyDecision → Exec ApprovalQueue Bool
review context request decision q = (
  ok (get_or (lookup request.call_id q.decisions) q.default),
  record q {
    received =
        q.received ++ record { context = context; request = request; decision = decision } ∷ [];
  },
)
