-- ===== src/Interceptor/Concurrent.antt =====
-- Many calls of `handle` of interceptor.py at once, on one audit log and one world. A task can be
-- suspended where `handle` awaits one of its parts, so the step of a call is one awaited part with
-- what follows it up to the next, and the audit is a step of its own.
mod Tests
pub mod Alone
pub mod Owed
pub mod Trail
pub mod Permission
use compliance_framework.Prelude.{
  ℕ, zero, suc, ◌≡◌, Bool, true, false, Option, none, some, List, [], ◌∷◌, ◌++◌, Exn, Result, ok,
  raise, if◌then◌else◌,
}
use compliance_framework.Models.{
  ExecutionContext, ToolRequest, PolicyDecision, decide_as, SandboxResult,
}
use compliance_framework.Runtime.{Runtime}
use compliance_framework.Audit.WormLog.{Codec, Logger, Stamp}
use compliance_framework.Interceptor.Parts.{Interceptor, InterceptorResult, State, Progress}
use compliance_framework.Interceptor.{
  breaker_denial, evaluate_decision, safely_resolve_action_requirements, execute_sandboxed,
  record_circuit_breaker_outcome, check_breaker, finish,
}

-- What a call does next, with the variables of `handle` that it needs for that.
pub data Point : Type 0 where
  checking deciding : Point
  resolving running : PolicyDecision → Point
  recording : PolicyDecision → SandboxResult → Point
  auditing : Progress → Point
  -- the breaker raised an exception, and nothing was audited
  unchecked : Exn → Point
  -- the audit is done, and the call is over
  audited : Progress → Result InterceptorResult → Point

-- What the call gave its caller, if it is over.
abbrev pub given : Point → Option (Result InterceptorResult)
given (unchecked e) = some (raise e)
given (audited p r) = some r
given _ = none

abbrev stopped : PolicyDecision → Option SandboxResult → Option Exn → Point
stopped d result pending =
    auditing (record { decision = d; sandbox_result = result; pending = pending })

module _ (py : Runtime) {W : Type 0} (i : Interceptor W) (context : ExecutionContext)
    (request : ToolRequest) where
  -- One step of a call that does not touch the log.
  unfoldable pub work : Point → W → Point × W
  work checking w =
      let (closed, w') = check_breaker py i context request w in
      (
        elim closed [
          | raise e ↦ unchecked e
          | ok true ↦ deciding
          | ok false ↦ stopped (breaker_denial context request) none none
        ],
        w',
      )
  work deciding w =
      let (r, w') = evaluate_decision py i context request w in
      (
        elim r [
          | raise e ↦
              stopped (decide_as false "unresolved: interceptor did not complete") none (some e)
          | ok d ↦ if d.allowed then resolving d else stopped d none none
        ],
        w',
      )
  work (resolving d) w =
      let (r, w') = safely_resolve_action_requirements py i context request d w in
      (
        elim r [
          | raise e ↦ stopped d none (some e)
          | ok resolved ↦ if resolved.allowed then running resolved else stopped resolved none none
        ],
        w',
      )
  work (running d) w =
      let (r, w') = execute_sandboxed py i context request w in
      (elim r [ raise e ↦ stopped d none (some e) | ok result ↦ recording d result ], w')
  work (recording d result) w =
      let (r, w') = record_circuit_breaker_outcome py i context request result w in
      (stopped d (some result) (elim r [ ok _ ↦ none | raise e ↦ some e ]), w')
  work point w = (point, w)

module _ (py : Runtime) {W : Type 0} (i : Interceptor W) (codec : Codec) (stamp : Stamp)
    (context : ExecutionContext) (request : ToolRequest) where
  -- One step of a call.
  unfoldable pub advance : Point → State W → Point × State W
  advance (auditing p) s =
      let (r, s') = finish py i codec stamp context request (p, s.world) s.log in (audited p r, s')
  advance point s =
      let (point', w) = work py i context request point s.world in
      (point', record { log = s.log; world = w })

  -- A number of steps of a call that nothing interrupts.
  unfoldable pub drive : ℕ → Point → State W → Point × State W
  drive zero point s = (point, s)
  drive (suc n) point s = let (point', s') = advance point s in drive n point' s'

-- One call of `handle`.
pub record Handling : Type 0 where
  pub stamp : Stamp
  pub context : ExecutionContext
  pub request : ToolRequest
  pub point : Point

pub record System (W : Type 0) : Type 0 where
  pub state : State W
  pub calls : List Handling

-- The system after a step of the call between the others.
abbrev pub picked :
    {W : Type 0} → List Handling → List Handling → Handling → Point × State W → System W
picked before after h (point, state) = record {
  state = state;
  calls = before ++ record h { point = point } ∷ after;
}

abbrev pub step_of :
    {W : Type 0} → Runtime → Interceptor W → Codec → Handling → State W → Point × State W
step_of py i codec h = advance py i codec h.stamp h.context h.request h.point

module _ (py : Runtime) {W : Type 0} (i : Interceptor W) (codec : Codec) where
  -- The loop picks one of the calls, a new call begins, or something else changes the world.
  pub data Step (s t : System W) : Type 0 where
    pick :
        (before after : List Handling) (h : Handling)
        → s.calls ≡ before ++ h ∷ after
        → t ≡ picked before after h (step_of py i codec h s.state)
        → Step s t
    begin :
        (stamp : Stamp) (context : ExecutionContext) (request : ToolRequest)
        → t ≡ record s {
          calls =
              record { stamp = stamp; context = context; request = request; point = Point.checking }
              ∷ s.calls;
        }
        → Step s t
    pass : (w : W) → t ≡ record s { state = record s.state { world = w } } → Step s t

  -- What can be reached from a state in which no call is under way.
  pub data Reach (start : State W) : System W → Type 0 where
    here : Reach start (record { state = start; calls = [] })
    next : {s t : System W} → Reach start s → Step s t → Reach start t
