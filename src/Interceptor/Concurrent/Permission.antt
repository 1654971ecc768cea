-- ===== src/Interceptor/Concurrent/Permission.antt =====
-- When a call reaches the sandbox, under any interleaving of calls.
use compliance_framework.Prelude.{
  wait_for, true, false, ◌≡◌, refl, sym, subst, ◌⊎◌, inl, inr, Bool-cases, none, All, All_replace,
  All_at, List, ◌∷◌, ◌++◌, ok, Result-cases, Exec, arith,
}
use compliance_framework.Models.{ExecutionContext, ToolRequest, PolicyDecision, SandboxResult}
use compliance_framework.Runtime.{Runtime}
use compliance_framework.Audit.WormLog.{Codec, Stamp}
use compliance_framework.Interceptor.Parts.{Interceptor, State}
use compliance_framework.Interceptor.{
  resolve_action_requirements, seek_approval, record_circuit_breaker_outcome, finish,
  audit_and_wrap, settle_decision, evaluate_decision, safely_resolve_action_requirements,
  execute_sandboxed, check_breaker,
}
use compliance_framework.Interceptor.Requirements.{AllSupported}
use compliance_framework.Interceptor.Permission.{IsApproved, resolved-IsApproved}
use compliance_framework.Interceptor.Concurrent.{
  Point, work, advance, Handling, System, step_of, pick, begin, pass, Reach, here, next,
}

module _ (py : Runtime) {W : Type 0} (i : Interceptor W) where
  module _ (context : ExecutionContext) (request : ToolRequest) where
    -- The engine answered in time, at some moment, and allowed the call.
    pub record WasAllowed (d : PolicyDecision) : Type 0 where
      pub asked : W
      pub told : W
      pub answered :
          wait_for i.decision_timeout_ms (i.policy_engine context request) asked ≡ (ok d, told)
      pub allowed : d.allowed ≡ true

    -- The engine allowed the call, nothing unknown was required, and later the approval, if one was
    -- required, was given.
    pub record WasCleared (resolved : PolicyDecision) : Type 0 where
      pub decision : PolicyDecision
      pub asked : W
      pub told : W
      pub engine : WasAllowed decision
      pub supported : AllSupported decision.action_requirements
      pub approved : IsApproved py i context request decision asked resolved told

    abbrev pub HasLeave : Point → Type 0
    HasLeave (Point.resolving d) = WasAllowed d
    HasLeave (Point.running d) = WasCleared d
    HasLeave (Point.recording d result) = WasCleared d
    HasLeave (Point.auditing p) = (p.sandbox_result ≡ none) ⊎ WasCleared p.decision
    HasLeave (Point.audited p r) = (p.sandbox_result ≡ none) ⊎ WasCleared p.decision
    HasLeave point = Unit

    evaluate_decision-WasAllowed :
        (d : PolicyDecision) (w : W)
        → (evaluate_decision py i context request w).0 ≡ ok d
        → d.allowed ≡ true
        → WasAllowed d
    unfolding evaluate_decision settle_decision
    evaluate_decision-WasAllowed d w decided allowed =
        let r = wait_for i.decision_timeout_ms (i.policy_engine context request) w in
        elim (Result-cases r.0) [
          | inr (e, failed) ↦ absurd (ground arith)
          | inl (d', answered) ↦ record {
            asked = w;
            told = r.1;
            answered = ground arith;
            allowed = allowed;
          }
        ]

    work-HasLeave :
        (point : Point) (w : W) → HasLeave point → HasLeave (work py i context request point w).0
    unfolding work
    work-HasLeave Point.checking w h =
        elim (Result-cases (check_breaker py i context request w).0) [
          | inl (true, closed) ↦ rw (closed, work) tt
          | inl (false, refused) ↦ rw (refused, work) (inl refl)
          | inr (e, failed) ↦ rw (failed, work) tt
        ]
    work-HasLeave Point.deciding w h =
        elim (Result-cases (evaluate_decision py i context request w).0) [
          | inr (e, failed) ↦ rw (failed, work) (inl refl)
          | inl (d, decided) ↦ elim (Bool-cases d.allowed) [
            | inr denied ↦ simp (decided, denied, work) (inl refl)
            | inl allowed ↦
                simp (decided, allowed, work) (evaluate_decision-WasAllowed d w decided allowed)
          ]
        ]
    work-HasLeave (Point.resolving d) w h =
        let s = safely_resolve_action_requirements py i context request d w in
        elim (Result-cases s.0) [
          | inr (e, failed) ↦ rw (failed, work) (inl refl)
          | inl (resolved, settled) ↦ elim (Bool-cases resolved.allowed) [
            | inr refused ↦ simp (settled, refused, work) (inl refl)
            | inl granted ↦
                let (supported, approved) =
                  resolved-IsApproved py i context request d resolved w settled granted in
                simp (settled, granted, work)
                  (record {
                    decision = d;
                    asked = w;
                    told = s.1;
                    engine = h;
                    supported = supported;
                    approved = approved;
                  })
          ]
        ]
    work-HasLeave (Point.running d) w h =
        elim (Result-cases (execute_sandboxed py i context request w).0) [
          | inr (e, failed) ↦ rw (failed, work) (inl refl)
          | inl (result, done) ↦ rw (done, work) h
        ]
    work-HasLeave (Point.recording d result) w h = inr h
    work-HasLeave (Point.auditing p) w h = h
    work-HasLeave (Point.unchecked e) w h = h
    work-HasLeave (Point.audited p r) w h = h

    module _ (codec : Codec) (stamp : Stamp) where
      advance-HasLeave :
          (point : Point) (s : State W)
          → HasLeave point
          → HasLeave (advance py i codec stamp context request point s).0
      unfolding advance
      advance-HasLeave (Point.auditing p) s h = h
      advance-HasLeave point s h = work-HasLeave point s.world h

  module _ (codec : Codec) where
    abbrev MayGoOn : Handling → Type 0
    MayGoOn h = HasLeave h.context h.request h.point

    Reach-MayGoOn :
        (start : State W) (t : System W) → Reach py i codec start t → All MayGoOn t.calls
    Reach-MayGoOn start t here = tt
    Reach-MayGoOn start t (next {s} reached (begin stamp context request e)) =
        subst (λ u. All MayGoOn u.calls) (sym e) (tt, Reach-MayGoOn start s reached)
    Reach-MayGoOn start t (next {s} reached (pass w e)) =
        subst (λ u. All MayGoOn u.calls) (sym e) (Reach-MayGoOn start s reached)
    Reach-MayGoOn start t (next {s} reached (pick before after h split e)) =
        subst (λ u. All MayGoOn u.calls) (sym e)
          (All_replace MayGoOn before after
            (advance-HasLeave h.context h.request codec h.stamp h.point s.state)
            (subst (All MayGoOn) split (Reach-MayGoOn start s reached)))

    module _ (other : ToolRequest → ExecutionContext → Exec W SandboxResult) where
      -- The step depends on the sandbox only where the call is about to run it.
      step_elsewhere :
          (stamp : Stamp) (context : ExecutionContext) (request : ToolRequest) (point : Point)
          (s : State W)
          → (advance py (record i { sandbox = other }) codec stamp context request point s
              ≡ advance py i codec stamp context request point s)
            ⊎ ((d : PolicyDecision) × (point ≡ Point.running d))
      unfolding advance work check_breaker evaluate_decision safely_resolve_action_requirements
          resolve_action_requirements seek_approval record_circuit_breaker_outcome finish
          audit_and_wrap
      step_elsewhere stamp context request (Point.running d) s = inr (d, refl)
      step_elsewhere stamp context request point s = inl refl

      -- In any state that can be reached by interleaving calls with each other and with changes of the
      -- world, the next step of a call is the same with any other sandbox, or the call stands before
      -- the sandbox with a decision for which the engine had answered in time and allowed the call,
      -- each requirement was known, and a human had agreed if one was to be asked.
      pub Reach-cleared :
          (start : State W) (t : System W) (before after : List Handling) (h : Handling)
          → Reach py i codec start t
          → t.calls ≡ before ++ h ∷ after
          → (step_of py (record i { sandbox = other }) codec h t.state
              ≡ step_of py i codec h t.state)
            ⊎ ((d : PolicyDecision) × (h.point ≡ Point.running d)
                × WasCleared h.context h.request d)
      Reach-cleared start t before after h reached split =
          let leave =
            All_at MayGoOn before after
              (subst (All MayGoOn) split (Reach-MayGoOn start t reached)) in
          elim (step_elsewhere h.stamp h.context h.request h.point t.state) [
            | inl same ↦ inl same
            | inr (d, stands) ↦ inr (d, stands, subst (HasLeave h.context h.request) stands leave)
          ]
