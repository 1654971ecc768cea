-- ===== src/Interceptor/Concurrent/Tests.antt =====
-- Two calls of `handle` that take turns.
use compliance_framework.Prelude.{ℕ, Bool, true, false, ◌≡◌, refl, ◌⊎◌, List, [], ◌∷◌, member}
use compliance_framework.Models.{PolicyDecision, decide_as}
use compliance_framework.Fixture.{runtime, engineer, deploy}
use compliance_framework.Audit.WormLog.{Stamp, append, chained, log_call, record_for}
use compliance_framework.Interceptor.{
  State, settle_decision, settle_approval, answer, settle_sandbox, evaluate_decision, seek_approval,
  resolve_action_requirements, safely_resolve_action_requirements, execute_sandboxed,
  record_circuit_breaker_outcome, check_breaker, audit_and_wrap, finish,
}
use compliance_framework.Interceptor.Requirements.{unsupported}
use compliance_framework.Interceptor.Tests.{granting, counting_twice, codec, stamp, s0}
use compliance_framework.Interceptor.Concurrent.{
  Point, work, advance, Handling, System, step_of, pick, begin, Reach, here, next,
}
use compliance_framework.Interceptor.Concurrent.Trail.{Accounts, Reach-Accounts}
use compliance_framework.Interceptor.Concurrent.Permission.{WasCleared, Reach-cleared}

abbrev other_stamp : Stamp
other_stamp = record { record_id = "r2"; timestamp = "2026-01-01T00:00:01" }

abbrev fresh : Stamp → Handling
fresh stamp = record { stamp = stamp; context = engineer; request = deploy; point = Point.checking }

abbrev two : Handling → Handling → State ℕ → System ℕ
two a b state = record { state = state; calls = a ∷ b ∷ [] }

-- One of two calls takes a step, the first where the list says `true`.
abbrev turns : List Bool → Handling → Handling → State ℕ → System ℕ
turns [] a b state = two a b state
turns (true ∷ more) a b state =
    let (point, state') = step_of runtime granting codec a state in
    turns more (record a { point = point }) b state'
turns (false ∷ more) a b state =
    let (point, state') = step_of runtime granting codec b state in
    turns more a (record b { point = point }) state'

turns-Reach :
    (order : List Bool) (a b : Handling) (state : State ℕ)
    → Reach runtime granting codec s0 (two a b state)
    → Reach runtime granting codec s0 (turns order a b state)
turns-Reach [] a b state reached = reached
turns-Reach (true ∷ more) a b state reached =
    turns-Reach more _ b _ (next reached (pick [] (b ∷ []) a refl refl))
turns-Reach (false ∷ more) a b state reached =
    turns-Reach more a _ _ (next reached (pick (a ∷ []) [] b refl refl))

two-Reach : Reach runtime granting codec s0 (two (fresh stamp) (fresh other_stamp) s0)
two-Reach =
    next (next here (begin other_stamp engineer deploy refl)) (begin stamp engineer deploy refl)

-- The second call is audited before the first one, which had begun to run.
abbrev order : List Bool
order = true ∷ true ∷ false ∷ true ∷ false ∷ false ∷ false ∷ false ∷ false ∷ true ∷ true ∷ true ∷ []

abbrev ended : System ℕ
ended = turns order (fresh stamp) (fresh other_stamp) s0

ended-Reach : Reach runtime granting codec s0 ended
ended-Reach = turns-Reach order (fresh stamp) (fresh other_stamp) s0 two-Reach

ended_lines : ended.state.log.lines ≡ "r2" ∷ "r1" ∷ []
unfolding advance work check_breaker evaluate_decision settle_decision
    safely_resolve_action_requirements settle_approval resolve_action_requirements unsupported
    seek_approval answer execute_sandboxed settle_sandbox record_circuit_breaker_outcome member
    finish audit_and_wrap log_call append chained record_for
ended_lines = refl

abbrev halfway : System ℕ
halfway = turns (true ∷ true ∷ false ∷ true ∷ []) (fresh stamp) (fresh other_stamp) s0

-- Before the sandbox, with the human's agreement.
abbrev first : Handling
first = record (fresh stamp) { point = Point.running (decide_as true "approved; human-approved") }

abbrev second : Handling
second = record (fresh other_stamp) { point = Point.deciding }

halfway_calls : halfway.calls ≡ first ∷ second ∷ []
unfolding advance work check_breaker evaluate_decision settle_decision
    safely_resolve_action_requirements settle_approval resolve_action_requirements unsupported
    seek_approval answer member
halfway_calls = refl

Reach-Accounts_example : Accounts runtime granting codec s0 ended
Reach-Accounts_example = Reach-Accounts runtime granting codec s0 ended refl ended-Reach

Reach-cleared_example :
    (step_of runtime (record granting { sandbox = counting_twice }) codec first halfway.state
      ≡ step_of runtime granting codec first halfway.state)
    ⊎ ((d : PolicyDecision) × (first.point ≡ Point.running d)
        × WasCleared runtime granting engineer deploy d)
Reach-cleared_example =
    Reach-cleared runtime granting codec counting_twice s0 halfway [] (second ∷ []) first
      (turns-Reach (true ∷ true ∷ false ∷ true ∷ []) (fresh stamp) (fresh other_stamp) s0 two-Reach)
      halfway_calls
