-- ===== src/Interceptor/Concurrent/Alone.antt =====
-- A call that nothing interrupts is `handle`.
use compliance_framework.Prelude.{
  ℕ, zero, suc, ◌+◌, true, false, ◌≡◌, refl, sym, subst, inl, inr, Bool-cases, none, some, Exn,
  Result, Result-cases, arith, if◌then◌else◌,
}
use compliance_framework.Models.{ExecutionContext, ToolRequest, PolicyDecision}
use compliance_framework.Runtime.{Runtime}
use compliance_framework.Audit.WormLog.{Codec, Logger, Stamp}
use compliance_framework.Interceptor.Parts.{Interceptor, InterceptorResult, State, Progress}
use compliance_framework.Interceptor.{
  evaluate_decision, safely_resolve_action_requirements, execute_sandboxed, run_allowed,
  run_decided, attempt, check_breaker, audit_and_wrap, finish, handle,
}
use compliance_framework.Interceptor.Concurrent.{Point, given, stopped, work, advance, drive}

module _ (py : Runtime) {W : Type 0} (i : Interceptor W) (codec : Codec) (stamp : Stamp)
    (context : ExecutionContext) (request : ToolRequest) where
  -- The call is over, with this answer and in this state.
  abbrev Ends : Point × State W → Result InterceptorResult × State W → Type 0
  Ends (point, s) (r, s') = (given point ≡ some r) × (s ≡ s')

  drive-over :
      (n : ℕ) (p : Progress) (r : Result InterceptorResult) (s : State W)
      → drive py i codec stamp context request n (Point.audited p r) s ≡ (Point.audited p r, s)
  unfolding drive advance work
  drive-over zero p r s = refl
  drive-over (suc n) p r s = drive-over n p r s

  drive-unchecked :
      (n : ℕ) (e : Exn) (s : State W)
      → drive py i codec stamp context request n (Point.unchecked e) s ≡ (Point.unchecked e, s)
  unfolding drive advance work
  drive-unchecked zero e s = refl
  drive-unchecked (suc n) e s = drive-unchecked n e s

  drive-auditing :
      (n : ℕ) (p : Progress) (s : State W)
      → Ends
          (drive py i codec stamp context request (suc n) (Point.auditing p) s)
          (finish py i codec stamp context request (p, s.world) s.log)
  unfolding drive advance
  drive-auditing n p s =
      let (r, s') = finish py i codec stamp context request (p, s.world) s.log in
      rw (drive-over n p r s') (refl, refl)

  drive-running :
      (n : ℕ) (d : PolicyDecision) (s : State W)
      → Ends (drive py i codec stamp context request (suc (suc (suc n))) (Point.running d) s) (
          finish py i codec stamp context request
            (run_allowed py i context request d s.world)
            s.log)
  unfolding drive advance work run_allowed
  drive-running n d s =
      let (r, w) = execute_sandboxed py i context request s.world in
      elim (Result-cases r) [
        | inr (e, failed) ↦
            rw (failed, drive, advance, work, run_allowed) (drive-auditing (suc n) _ _)
        | inl (result, done) ↦ rw (done, drive, advance, work, run_allowed) (drive-auditing n _ _)
      ]

  drive-resolving :
      (n : ℕ) (d : PolicyDecision) (s : State W)
      → d.allowed ≡ true
      → Ends
          (drive py i codec stamp context request (suc (suc (suc (suc n)))) (Point.resolving d) s)
          (finish py i codec stamp context request
            (run_decided py i context request d s.world)
            s.log)
  unfolding drive advance work run_decided
  drive-resolving n d s allowed =
      let (r, w) = safely_resolve_action_requirements py i context request d s.world in
      elim (Result-cases r) [
        | inr (e, failed) ↦
            simp (allowed, failed, drive, advance, work, run_decided)
              (drive-auditing (suc (suc n)) _ _)
        | inl (resolved, settled) ↦ elim (Bool-cases resolved.allowed) [
          | inr refused ↦
              simp (allowed, settled, refused, drive, advance, work, run_decided)
                (drive-auditing (suc (suc n)) _ _)
          | inl granted ↦
              simp (allowed, settled, granted, drive, advance, work, run_decided)
                (drive-running n resolved _)
        ]
      ]

  drive-decided :
      (n : ℕ) (d : PolicyDecision) (s : State W)
      → let point = if d.allowed then Point.resolving d else stopped d none none in
        Ends (drive py i codec stamp context request (suc (suc (suc (suc n)))) point s) (
          finish py i codec stamp context request
            (run_decided py i context request d s.world)
            s.log)
  unfolding run_decided
  drive-decided n d s = elim (Bool-cases d.allowed) [
    | inr denied ↦ rw (denied, run_decided) (drive-auditing (suc (suc (suc n))) _ _)
    | inl allowed ↦
        subst
          (λ b.
            Ends
              (drive py i codec stamp context request (suc (suc (suc (suc n))))
                (if b then Point.resolving d else stopped d none none) s)
              (finish py i codec stamp context request (run_decided py i context request d s.world)
                s.log))
          (sym allowed) (drive-resolving n d s allowed)
  ]

  drive-deciding :
      (n : ℕ) (s : State W)
      → Ends
          (drive py i codec stamp context request (suc (suc (suc (suc (suc n))))) Point.deciding s)
          (finish py i codec stamp context request (attempt py i context request s.world) s.log)
  unfolding drive advance work attempt
  drive-deciding n s =
      let (r, w) = evaluate_decision py i context request s.world in
      elim (Result-cases r) [
        | inr (e, failed) ↦
            rw (failed, drive, advance, work, attempt) (drive-auditing (suc (suc (suc n))) _ _)
        | inl (d, decided) ↦ rw (decided, drive, advance, work, attempt) (drive-decided n d _)
      ]

  finish_denied :
      (d : PolicyDecision) (w : W) (l : Logger)
      → let (r, l') = audit_and_wrap py i codec stamp context request d none l in
        finish py i codec stamp context request
          (record { decision = d; sandbox_result = none; pending = none }, w)
          l
        ≡ (r, record { log = l'; world = w })
  unfolding finish
  finish_denied d w l = ground arith

  drive-checking :
      (n : ℕ) (s : State W)
      → Ends
          (drive py i codec stamp context request
            (suc (suc (suc (suc (suc (suc n))))))
            Point.checking
            s)
          (handle py i codec stamp context request s)
  unfolding drive advance work handle
  drive-checking n s =
      let (r, w) = check_breaker py i context request s.world in
      elim (Result-cases r) [
        | inr (e, failed) ↦
            rw (failed, drive, advance, work, handle) (rw (drive-unchecked n e) (refl, refl))
        | inl (true, closed) ↦ rw (closed, drive, advance, work, handle) (drive-deciding n _)
        | inl (false, refused) ↦
            rw (refused, drive, advance, work, handle)
              (subst (Ends _) (finish_denied _ w s.log)
                (drive-auditing (suc (suc (suc (suc n)))) _ _))
      ]

  -- Six steps or more, with nothing between them, end any call, and they give what `handle` gives: its
  -- result or its exception, and the log and the world that it leaves.
  pub drive-handle :
      (n : ℕ) (s : State W)
      → let (point, s') = drive py i codec stamp context request (6 + n) Point.checking s in
        (given point ≡ some (handle py i codec stamp context request s).0)
        × (s' ≡ (handle py i codec stamp context request s).1)
  drive-handle n s =
      let six : suc (suc (suc (suc (suc (suc n))))) ≡ 6 + n = omega arith in
      subst
        (λ k.
          Ends (drive py i codec stamp context request k Point.checking s)
            (handle py i codec stamp context request s))
        six (drive-checking n s)
