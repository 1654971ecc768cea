-- ===== src/Interceptor/Permission.antt =====
-- When a tool call reaches the sandbox, and what a call that does not reach it leaves alone.
use compliance_framework.Prelude.{
  wait_for, Bool, true, false, ◌≡◌, refl, ◌⊎◌, inl, inr, Bool-cases, Option-cases, List-cases, none,
  some, member, Exn, is_exception, ok, raise, Result-cases, Exec, arith,
}
use compliance_framework.Models.{ExecutionContext, ToolRequest, PolicyDecision, SandboxResult}
use compliance_framework.Runtime.{Runtime}
use compliance_framework.Interceptor.{
  Interceptor, settle_decision, settle_approval, answer, evaluate_decision, seek_approval,
  resolve_action_requirements, safely_resolve_action_requirements, run_allowed, run_decided,
  attempt,
}
use compliance_framework.Interceptor.Requirements.{unsupported, AllSupported, unsupported-nil_iff}

module _ (py : Runtime) {W : Type 0} (i : Interceptor W) (context : ExecutionContext)
    (request : ToolRequest) where
  -- The requirements of the decision are met: there are none that ask for a human, or the callback
  -- is there and says yes.
  abbrev pub IsApproved : PolicyDecision → W → PolicyDecision → W → Type 0
  IsApproved d w resolved w' =
      ((member "human_approval" d.action_requirements ≡ false) × (resolved ≡ d) × (w' ≡ w))
      ⊎ ((callback : ExecutionContext → ToolRequest → PolicyDecision → Exec W Bool) × (member
              "human_approval" d.action_requirements
            ≡ true)
          × (i.approval_callback ≡ some callback)
          × ((callback context request d w).0 ≡ ok true)
          × ((callback context request d w).1 ≡ w'))

  -- The way of a call to the sandbox: the engine answered in time and allowed the call, nothing
  -- unknown is required, and the approval, if one is required, was given.
  pub record IsCleared (w : W) (d : PolicyDecision) (w' : W) (resolved : PolicyDecision) (w'' : W)
      : Type 0 where
    pub answered : wait_for i.decision_timeout_ms (i.policy_engine context request) w ≡ (ok d, w')
    pub allowed : d.allowed ≡ true
    pub supported : AllSupported d.action_requirements
    pub approved : IsApproved d w' resolved w''

  seek_approval-IsApproved :
      (d resolved : PolicyDecision) (w : W)
      → settle_approval (seek_approval py i context request d w).0 ≡ ok resolved
      → resolved.allowed ≡ true
      → IsApproved d w resolved (seek_approval py i context request d w).1
  unfolding seek_approval settle_approval answer
  seek_approval-IsApproved d resolved w e a =
      elim (Bool-cases (member "human_approval" d.action_requirements)) [
        | inr free ↦ inl (free, ground arith, ground arith)
        | inl asked ↦ elim (Option-cases i.approval_callback) [
          | inl missing ↦ absurd (ground arith)
          | inr (callback, found) ↦ inr (callback, asked, found, ground arith, ground arith)
        ]
      ]

  -- A resolved decision that allows the call was approved.
  pub resolved-IsApproved :
      (d resolved : PolicyDecision) (w : W)
      → (safely_resolve_action_requirements py i context request d w).0 ≡ ok resolved
      → resolved.allowed ≡ true
      → AllSupported d.action_requirements
        × IsApproved d w resolved (safely_resolve_action_requirements py i context request d w).1
  unfolding safely_resolve_action_requirements resolve_action_requirements
  resolved-IsApproved d resolved w e a = elim (List-cases (unsupported d.action_requirements)) [
    | inl clean ↦ (
      (unsupported-nil_iff d.action_requirements).0 clean,
      rw (clean, resolve_action_requirements, safely_resolve_action_requirements)
          (seek_approval-IsApproved d resolved w
            (rw (clean, safely_resolve_action_requirements, resolve_action_requirements) at e) a),
    )
    | inr (x, xs, unknown) ↦ absurd (unfold settle_approval in ground arith)
  ]

  run_decided-IsCleared :
      (w w' : W) (d : PolicyDecision) (result : SandboxResult)
      → wait_for i.decision_timeout_ms (i.policy_engine context request) w ≡ (ok d, w')
      → (run_decided py i context request d w').0.sandbox_result ≡ some result
      → (resolved : PolicyDecision) × (w'' : W) × IsCleared w d w' resolved w''
        × (run_decided py i context request d w' ≡ run_allowed py i context request resolved w'')
  unfolding run_decided
  run_decided-IsCleared w w' d result e h =
      let s = safely_resolve_action_requirements py i context request d w' in
      elim (Bool-cases d.allowed) [
        | inr denied ↦ absurd (ground arith)
        | inl allowed ↦ elim (Result-cases s.0) [
          | inr (exn, failed) ↦ absurd (ground arith)
          | inl (resolved, settled) ↦ elim (Bool-cases resolved.allowed) [
            | inr refused ↦ absurd (ground arith)
            | inl granted ↦
                let (supported, approved) = resolved-IsApproved d resolved w' settled granted in
                (
                  resolved,
                  s.1,
                  record {
                    answered = e;
                    allowed = allowed;
                    supported = supported;
                    approved = approved;
                  },
                  ground arith,
                )
          ]
        ]
      ]

  -- Nothing runs without permission: if a call leaves a sandbox result, the engine had answered in
  -- time with an approval, each requirement was known, and a human had agreed if one was to be
  -- asked; and the sandbox was run after that, on the world that the approval left.
  pub attempt_sandboxed :
      (w : W) (result : SandboxResult)
      → (attempt py i context request w).0.sandbox_result ≡ some result
      → (d : PolicyDecision) × (w' : W) × (resolved : PolicyDecision) × (w'' : W) × IsCleared w d w'
          resolved w''
        × (attempt py i context request w ≡ run_allowed py i context request resolved w'')
  unfolding attempt evaluate_decision settle_decision
  attempt_sandboxed w result h =
      let r = wait_for i.decision_timeout_ms (i.policy_engine context request) w in
      elim (Result-cases r.0) [
        | inr (e, failed) ↦ absurd (unfold run_decided in ground arith)
        | inl (d, answered) ↦
            let (resolved, w'', cleared, same) =
              run_decided-IsCleared w r.1 d result (ground arith) (ground arith) in
            (d, r.1, resolved, w'', cleared, ground arith)
      ]

  -- Fail safe: where the engine times out or raises an exception, the call is denied, nothing else
  -- is run, and no exception is left.
  pub attempt_fails_closed :
      (w : W) (e : Exn)
      → (wait_for i.decision_timeout_ms (i.policy_engine context request) w).0 ≡ raise e
      → is_exception e ≡ true
      → ((attempt py i context request w).0.decision.allowed ≡ false)
        × ((attempt py i context request w).0.sandbox_result ≡ none)
        × ((attempt py i context request w).0.pending ≡ none)
        × ((attempt py i context request w).1
            ≡ (i.policy_engine context request i.decision_timeout_ms w).1)
  unfolding attempt evaluate_decision settle_decision run_decided
  attempt_fails_closed w e failed h = ground arith

  decision-run_allowed :
      (d : PolicyDecision) (w : W) → (run_allowed py i context request d w).0.decision ≡ d
  unfolding run_allowed
  decision-run_allowed d w = ground arith

  module _ (other : ToolRequest → ExecutionContext → Exec W SandboxResult) where
    resolving_same :
        (d : PolicyDecision) (w : W)
        → safely_resolve_action_requirements py (record i { sandbox = other }) context request d w
          ≡ safely_resolve_action_requirements py i context request d w
    unfolding safely_resolve_action_requirements resolve_action_requirements seek_approval
    resolving_same d w = refl

    run_decided-denied :
        (d : PolicyDecision) (w : W)
        → (run_decided py i context request d w).0.decision.allowed ≡ false
        → run_decided py (record i { sandbox = other }) context request d w
          ≡ run_decided py i context request d w
    unfolding run_decided
    run_decided-denied d w h =
        let s = safely_resolve_action_requirements py i context request d w in
        elim (Bool-cases d.allowed) [
          | inr denied ↦ ground arith
          | inl allowed ↦ elim (Result-cases s.0) [
            | inr (exn, failed) ↦ ground (arith, resolving_same d w)
            | inl (resolved, settled) ↦
                ground (arith, resolving_same d w, decision-run_allowed resolved s.1)
          ]
        ]

    -- A denied call never reaches the sandbox: with any other sandbox it goes the same way and leaves
    -- the same world.
    pub attempt_denied :
        (w : W)
        → (attempt py i context request w).0.decision.allowed ≡ false
        → attempt py (record i { sandbox = other }) context request w
          ≡ attempt py i context request w
    unfolding attempt evaluate_decision
    attempt_denied w h =
        let r = wait_for i.decision_timeout_ms (i.policy_engine context request) w in
        elim (Result-cases (settle_decision r.0)) [
          | inr (exn, failed) ↦ ground arith
          | inl (d, settled) ↦ ground (arith, run_decided-denied d r.1)
        ]

  -- A call that is cancelled while a human is asked is left with the engine's own approval as its
  -- decision, with no sandbox result and with the cancellation pending.
  pub attempt_cancelled :
      (w : W) (d : PolicyDecision) (e : Exn)
      (callback : ExecutionContext → ToolRequest → PolicyDecision → Exec W Bool)
      → (wait_for i.decision_timeout_ms (i.policy_engine context request) w).0 ≡ ok d
      → d.allowed ≡ true
      → AllSupported d.action_requirements
      → member "human_approval" d.action_requirements ≡ true
      → i.approval_callback ≡ some callback
      → (callback context request d
          (wait_for i.decision_timeout_ms (i.policy_engine context request) w).1).0
        ≡ raise e
      → is_exception e ≡ false
      → (attempt py i context request w).0
        ≡ record { decision = d; sandbox_result = none; pending = some e }
  unfolding attempt evaluate_decision settle_decision run_decided safely_resolve_action_requirements
      resolve_action_requirements settle_approval seek_approval answer
  attempt_cancelled w d e callback answered allowed supported asked found cancelled escapes =
      let clean = (unsupported-nil_iff d.action_requirements).1 supported in ground arith
