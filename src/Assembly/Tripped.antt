-- ===== src/Assembly/Tripped.antt =====
-- The in-memory backend as the interceptor's breaker.
use compliance_framework.Prelude.{
  ℕ, ◌<◌, String, Bool, true, false, ◌≡◌, ap, ◌∙◌, ◌⊎◌, inl, inr, none, some, ok, lookup,
  Option-cases, Bool-cases, Result-cases, arith,
}
use compliance_framework.Models.{ExecutionContext, ToolRequest}
use compliance_framework.Runtime.{Runtime}
use compliance_framework.Audit.WormLog.{Codec, Stamp}
use compliance_framework.Reliability.InMemory.{Config, Backend, is_open, judge, reaches, trip}
use compliance_framework.Reliability.InMemory.Window.{IsSane}
use compliance_framework.Reliability.InMemory.Opening.{IsOpen, is_open_iff}
use compliance_framework.Reliability.Facade.{key_for, check}
use compliance_framework.Interceptor.{
  Interceptor, State, breaker_denial, attempt, check_breaker, handle,
}
use compliance_framework.Interceptor.Trail.{HasEntry, outcome, reply, handle_audited, handle_open}
use compliance_framework.Assembly.{Host, in_memory}

-- With a sample count above 0, `is_open` raises nothing.
is_open_answers :
    (cfg : Config) (key : String) (now : ℕ) (s : Backend)
    → 0 < cfg.min_samples
    → (b : Bool) × ((is_open cfg key now s).0 ≡ ok b)
unfolding is_open judge reaches trip
is_open_answers cfg key now s pos_samples = elim (Result-cases (is_open cfg key now s).0) [
  | inl answer ↦ answer
  | inr (e, failed) ↦ absurd (elim (Option-cases (lookup key s.tripped_at)) [
    | inl closed ↦ ground arith
    | inr (t, tripped) ↦ ground arith
  ])
]

abbrev pub guarded : {W : Type 0} → Host W → Config → Interceptor W → Interceptor W
guarded host cfg i = record i { circuit_breaker = some (in_memory host cfg) }

-- The circuit of the call's agent and tool is open now.
abbrev pub IsBlocked : {W : Type 0} → Host W → Config → ExecutionContext → ToolRequest → W → Type 0
IsBlocked host cfg context request w =
    IsOpen cfg (key_for context.agent_id request.tool_name) (host.monotonic w) (host.backend w)

module _ (py : Runtime) {W : Type 0} (host : Host W) (cfg : Config) (i : Interceptor W)
    (context : ExecutionContext) (request : ToolRequest) where
  check_breaker-IsBlocked :
      (w : W)
      → 0 < cfg.min_samples
      → IsSane (host.monotonic w) (host.backend w)
      → (((check_breaker py (guarded host cfg i) context request w).0 ≡ ok false)
          × IsBlocked host cfg context request w)
        ⊎ (((check_breaker py (guarded host cfg i) context request w).0 ≡ ok true)
            × ¬ IsBlocked host cfg context request w)
  unfolding check_breaker check in_memory
  check_breaker-IsBlocked w samples sane =
      let key = key_for context.agent_id request.tool_name in
      let (b, told) = is_open_answers cfg key (host.monotonic w) (host.backend w) samples in
      let exact = is_open_iff cfg key (host.monotonic w) (host.backend w) sane in
      elim (Bool-cases b) [
        | inl blocked ↦ inl (ground arith, exact.0 (told ∙ ap (λ x. ok x) blocked))
        | inr closed ↦ inr (ground arith, λ open_now. let wrong = exact.1 open_now in ground arith)
      ]

  module _ (codec : Codec) (stamp : Stamp) where
    -- With the in-memory backend as breaker, a sample count above 0 and a log that can be written, a
    -- call is denied by the breaker and recorded as such exactly while the circuit of its agent and
    -- tool is open, and then neither engine nor sandbox is run; otherwise what is recorded and returned
    -- is what the policy decision and the sandbox made of it.
    pub handle-guarded :
        (s : State W)
        → s.log.fault ≡ none
        → 0 < cfg.min_samples
        → IsSane (host.monotonic s.world) (host.backend s.world)
        → let w = (check_breaker py (guarded host cfg i) context request s.world).1 in
          let (p, w') = attempt py (guarded host cfg i) context request w in
          let d = breaker_denial context request in
          let (answer, s') = handle py (guarded host cfg i) codec stamp context request s in
          (IsBlocked host cfg context request s.world
            × (answer ≡ ok (reply py codec stamp context request s.log d none))
            × HasEntry py codec stamp context request s.log s'.log d none
            × (s'.world ≡ w))
          ⊎ ((¬ IsBlocked host cfg context request s.world)
              × (answer ≡ outcome py codec stamp context request s.log p)
              × HasEntry py codec stamp context request s.log s'.log p.decision p.sandbox_result
              × (s'.world ≡ w'))
    handle-guarded s free samples sane = elim (check_breaker-IsBlocked s.world samples sane) [
      | inl (said, blocked) ↦
          let (_, a, b, c) =
            handle_open py codec stamp context request (guarded host cfg i) s free said in
          inl (blocked, a, b, c)
      | inr (said, clear) ↦
          let (a, b, c) =
            handle_audited py codec stamp context request (guarded host cfg i) s free said in
          inr (clear, a, b, c)
    ]
