-- ===== src/Gateway/RateLimit.antt =====
-- Which inbound prompts the gateway lets through.
use compliance_framework.Prelude.{
  ℕ, ◌+◌, ◌≤◌, String, Bool, true, ◌&&◌, ◌≡◌, refl, sym, ap, ◌∙◌, ◌↔◌, inl, inr, ◌==◌, eq_iff,
  Bool-cases, List, [], ◌∷◌, Result, ok, raise, false, Result-cases, lookup, lookup-insert, arith,
  if◌then◌else◌,
}
use compliance_framework.Models.{ExecutionContext}
use compliance_framework.Runtime.{Runtime}
use compliance_framework.Guardrails.Patterns.{mask}
use compliance_framework.Gateway.{
  Shim, or_zero, call_count, authenticate, check_rate_limit, handle_inbound,
}

pub record Inbound : Type 0 where
  pub prompt : String
  pub context : ExecutionContext
  pub token : String

module _ (py : Runtime) where
  abbrev pub receive : Inbound → Shim → Shim
  receive c s = (handle_inbound py c.prompt c.context c.token s).1

  unfoldable pub receive_all : List Inbound → Shim → Shim
  receive_all [] s = s
  receive_all (c ∷ cs) s = receive_all cs (receive c s)

-- The verifier answers yes.
abbrev pub is_accepted : Result Bool → Bool
is_accepted (ok b) = b
is_accepted (raise e) = false

-- How many of the calls come from the agent with a credential that the verifier accepts.
abbrev pub counted : (String → ExecutionContext → Result Bool) → String → List Inbound → ℕ
counted verifier agent [] = 0
counted verifier agent (c ∷ cs) =
    (if is_accepted (verifier c.token c.context) && c.context.agent_id == agent then 1 else 0)
    + counted verifier agent cs

module _ (py : Runtime) where
  receive-settings :
      (c : Inbound) (s : Shim)
      → ((receive py c s).verifier ≡ s.verifier)
        × ((receive py c s).rate_limit_per_minute ≡ s.rate_limit_per_minute)
  unfolding handle_inbound
  receive-settings c s = (ground arith, ground arith)

  receive-count :
      (c : Inbound) (agent : String) (s : Shim)
      → call_count (receive py c s) agent
        ≡ call_count s agent
          + (if is_accepted (s.verifier c.token c.context) && c.context.agent_id == agent
              then 1
              else 0)
  unfolding handle_inbound call_count check_rate_limit authenticate
  receive-count c agent s =
      let moved =
        lookup-insert c.context.agent_id agent (call_count s c.context.agent_id + 1)
          s.call_counts in
      elim (Result-cases (s.verifier c.token c.context)) [
        | inr refused ↦ ground arith
        | inl accepted ↦ elim (Bool-cases (c.context.agent_id == agent)) [
          | inl same ↦
              let e = (eq_iff c.context.agent_id agent).0 same in
              ground (arith, moved, ap (λ a. or_zero (lookup a s.call_counts)) e)
          | inr other ↦ ground (arith, moved)
        ]
      ]

  receive_all-settings :
      (cs : List Inbound) (s : Shim)
      → ((receive_all py cs s).verifier ≡ s.verifier)
        × ((receive_all py cs s).rate_limit_per_minute ≡ s.rate_limit_per_minute)
  unfolding receive_all
  receive_all-settings [] s = (refl, refl)
  receive_all-settings (c ∷ cs) s =
      let (v, r) = receive_all-settings cs (receive py c s) in
      let (v', r') = receive-settings c s in (v ∙ v', r ∙ r')

  receive_all-count :
      (agent : String) (cs : List Inbound) (s : Shim)
      → call_count (receive_all py cs s) agent ≡ call_count s agent + counted s.verifier agent cs
  unfolding receive_all
  receive_all-count agent [] s = omega arith
  receive_all-count agent (c ∷ cs) s =
      let later = receive_all-count agent cs (receive py c s) in
      let now = receive-count c agent s in
      let same = ap (λ v. counted v agent cs) (receive-settings c s).0 in
      omega (arith, later, now, same)

  inbound_iff :
      (prompt token : String) (context : ExecutionContext) (s : Shim)
      → ((handle_inbound py prompt context token s).0 ≡ ok (mask py prompt)) ↔ (
          (s.verifier token context ≡ ok true)
          × (call_count s context.agent_id + 1 ≤ s.rate_limit_per_minute))
  unfolding handle_inbound check_rate_limit authenticate
  inbound_iff prompt token context s = ground arith

  -- After any calls, the gateway lets a prompt through, with its personal data masked, exactly when
  -- the verifier accepts the credential and the calls that were counted for the agent before and
  -- among these, with this one, are no more than the limit; the calls counted among these are those
  -- of the agent with a credential that the verifier accepts.
  pub inbound_exact :
      (cs : List Inbound) (prompt token : String) (context : ExecutionContext) (s : Shim)
      → ((handle_inbound py prompt context token (receive_all py cs s)).0 ≡ ok (mask py prompt)) ↔ (
          (s.verifier token context ≡ ok true)
          × (call_count s context.agent_id + counted s.verifier context.agent_id cs + 1
              ≤ s.rate_limit_per_minute))
  inbound_exact cs prompt token context s =
      let (v, r) = receive_all-settings cs s in
      let n = receive_all-count context.agent_id cs s in
      let same = ap (λ f. f token context) v in
      let (sound, complete) = inbound_iff prompt token context (receive_all py cs s) in
      (
        λ h. let (accepted, below) = sound h in (sym same ∙ accepted, omega (arith, below, n, r)),
        λ (accepted, below). complete (same ∙ accepted, omega (arith, below, n, r)),
      )
