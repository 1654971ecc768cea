-- ===== src/Reliability/InMemory/Cooldown.antt =====
-- A circuit that trips stays open for the cooldown, whatever is done meanwhile, and then closes.
use compliance_framework.Prelude.{
  ℕ, ◌+◌, ◌≤◌, ◌<◌, String, Bool, true, false, ◌≡◌, refl, sym, subst, ◌∙◌, inl, inr, none, some,
  Bool-cases, All, List, [], ◌∷◌, lookup, insert, remove, lookup-insert, lookup-remove, ok, ◌==◌,
  eq_iff, eq_refl, arith,
}
use compliance_framework.Reliability.InMemory.{
  Config, Backend, record_outcome, score, is_open, events_of,
}

-- An operation of the backend, on some key.
pub data Op : Type 0 where
  record_op : Bool → String → Op
  score_op : String → Op
  ask : String → Op

module _ (cfg : Config) where
  abbrev pub step : Op → ℕ → Backend → Backend
  step (record_op success key) now s = record_outcome cfg success key now s
  step (score_op key) now s = (score cfg key now s).1
  step (ask key) now s = (is_open cfg key now s).1

  -- Operations one after the other, each with the time that it reads.
  unfoldable pub run : List (Op × ℕ) → Backend → Backend
  run [] s = s
  run ((op, now) ∷ ops) s = run ops (step op now s)

  pub tripped-record :
      (b : Bool) (key : String) (now : ℕ) (s : Backend)
      → (record_outcome cfg b key now s).tripped_at ≡ s.tripped_at
  unfolding record_outcome
  tripped-record b key now s = refl

  pub tripped-score :
      (key : String) (now : ℕ) (s : Backend) → (score cfg key now s).1.tripped_at ≡ s.tripped_at
  unfolding score
  tripped-score key now s = ground arith

  -- Asking about a key changes the trip time of no other key.
  pub tripped-ask :
      (key j : String) (now : ℕ) (s : Backend)
      → (key == j) ≡ false
      → lookup j (is_open cfg key now s).1.tripped_at ≡ lookup j s.tripped_at
  unfolding is_open
  tripped-ask key j now s other =
      ground (arith, lookup-insert key j now s.tripped_at, lookup-remove key j s.tripped_at)

  ask_tripped :
      (key : String) (now t : ℕ) (s : Backend)
      → lookup key s.tripped_at ≡ some t
      → now < t + cfg.cooldown
      → is_open cfg key now s ≡ (ok true, s)
  unfolding is_open
  ask_tripped key now t s e lt = ground arith

  step-tripped :
      (op : Op) (key : String) (now t : ℕ) (s : Backend)
      → lookup key s.tripped_at ≡ some t
      → now < t + cfg.cooldown
      → lookup key (step op now s).tripped_at ≡ some t
  step-tripped (record_op b j) key now t s e lt = rw (tripped-record b j now s) e
  step-tripped (score_op j) key now t s e lt = rw (tripped-score j now s) e
  step-tripped (ask j) key now t s e lt = elim (Bool-cases (j == key)) [
    | inl same ↦
        subst (λ k. lookup key (is_open cfg k now s).1.tripped_at ≡ some t)
          (sym ((eq_iff j key).0 same)) (rw (ask_tripped key now t s e lt) e)
    | inr other ↦ tripped-ask j key now s other ∙ e
  ]

  run-tripped :
      (ops : List (Op × ℕ)) (key : String) (t : ℕ) (s : Backend)
      → lookup key s.tripped_at ≡ some t
      → All (λ entry. entry.1 < t + cfg.cooldown) ops
      → lookup key (run ops s).tripped_at ≡ some t
  unfolding run
  run-tripped [] key t s e h = e
  run-tripped ((op, now) ∷ ops) key t s e h =
      run-tripped ops key t (step op now s) (step-tripped op key now t s e h.0) h.1

  -- A circuit that trips at some time stays open until the cooldown is over: whatever operations on
  -- whatever keys are done before that, `is_open` answers `True` and changes nothing.
  pub stays_open :
      (key : String) (t now : ℕ) (s : Backend) (ops : List (Op × ℕ))
      → lookup key s.tripped_at ≡ some t
      → All (λ entry. entry.1 < t + cfg.cooldown) ops
      → now < t + cfg.cooldown
      → is_open cfg key now (run ops s) ≡ (ok true, run ops s)
  stays_open key t now s ops e h lt =
      ask_tripped key now t (run ops s) (run-tripped ops key t s e h) lt

  -- The state after a check that ends the cooldown.
  abbrev cleared : String → Backend → Backend
  cleared key s = record { events = insert key [] s.events; tripped_at = remove key s.tripped_at }

  ask_expired :
      (key : String) (now t : ℕ) (s : Backend)
      → lookup key s.tripped_at ≡ some t
      → t + cfg.cooldown ≤ now
      → is_open cfg key now s ≡ (ok false, cleared key s)
  unfolding is_open
  ask_expired key now t s e le = ground arith

  events_of-cleared : (key : String) (s : Backend) → events_of (cleared key s) key ≡ []
  unfolding events_of
  events_of-cleared key s = rw (lookup-insert key key [] s.events) (rw (eq_refl key))

  -- If a circuit trips at some time, and whatever operations on whatever keys are done before its
  -- cooldown is over, then the first check of it from that time on answers `False`, closes the circuit
  -- and forgets its events.
  pub closes_after_cooldown :
      (key : String) (t now : ℕ) (s : Backend) (ops : List (Op × ℕ))
      → lookup key s.tripped_at ≡ some t
      → All (λ entry. entry.1 < t + cfg.cooldown) ops
      → t + cfg.cooldown ≤ now
      → let (answer, s') = is_open cfg key now (run ops s) in
        (answer ≡ ok false) × (lookup key s'.tripped_at ≡ none) × (events_of s' key ≡ [])
  closes_after_cooldown key t now s ops e h le =
      rw (ask_expired key now t (run ops s) (run-tripped ops key t s e h) le) (
        refl,
        rw (lookup-remove key key (run ops s).tripped_at) (rw (eq_refl key)),
        events_of-cleared key (run ops s),
      )
