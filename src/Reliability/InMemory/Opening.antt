-- ===== src/Reliability/InMemory/Opening.antt =====
-- Exactly when `is_open` says that a circuit is open.
use compliance_framework.Prelude.{
  ℕ, ◌+◌, ◌*◌, ◌≤◌, ◌<◌, String, true, ◌≡◌, ◌≢◌, ◌↔◌, ◌⊎◌, inl, inr, none, some, Option-cases,
  length, filter, List, lookup, ok, arith,
}
use compliance_framework.Reliability.InMemory.{
  Config, Event, Backend, failures, reaches, drop_old, events_of, judge, is_open,
}
use compliance_framework.Reliability.InMemory.Window.{is_recent, drop_old-filter, IsSane}

module _ (cfg : Config) where
  -- Enough events, and enough of them failures.
  pub record Fails (es : List Event) : Type 0 where
    pub some_event : length es ≢ 0
    pub enough : cfg.min_samples ≤ length es
    pub rate : cfg.threshold_num * length es ≤ failures es * cfg.threshold_den

  judge_iff :
      (key : String) (now : ℕ) (s : Backend)
      → ((judge cfg key now s).0 ≡ ok true) ↔ Fails (drop_old cfg.window now (events_of s key))
  unfolding judge reaches
  judge_iff key now s = (
    λ h. record { some_event = ground arith; enough = ground arith; rate = ground arith },
    λ f. ground (arith, f.some_event, f.enough, f.rate),
  )

  -- A tripped circuit that is still cooling down, or a closed one whose recent events fail.
  abbrev pub IsOpen : String → ℕ → Backend → Type 0
  IsOpen key now s =
      ((t : ℕ) × (lookup key s.tripped_at ≡ some t) × (now < t + cfg.cooldown))
      ⊎ ((lookup key s.tripped_at ≡ none)
          × Fails (filter (is_recent cfg.window now) (events_of s key)))

  closed_iff :
      (key : String) (now : ℕ) (s : Backend)
      → IsSane now s
      → lookup key s.tripped_at ≡ none
      → ((is_open cfg key now s).0 ≡ ok true)
        ↔ Fails (filter (is_recent cfg.window now) (events_of s key))
  unfolding is_open
  closed_iff key now s sane e =
      rw (← drop_old-filter cfg.window now (events_of s key) (sane.ordered key))
        (rw (e, is_open) (judge_iff key now s))

  tripped_iff :
      (key : String) (now t : ℕ) (s : Backend)
      → lookup key s.tripped_at ≡ some t
      → ((is_open cfg key now s).0 ≡ ok true) ↔ (now < t + cfg.cooldown)
  unfolding is_open
  tripped_iff key now t s e = ground arith

  -- `is_open` answers `True` exactly when the circuit has tripped and its cooldown is not over, or it
  -- is closed and, of the events in the window that ends now, there are at least `min_samples` and
  -- one, and the share of failures reaches the threshold.
  pub is_open_iff :
      (key : String) (now : ℕ) (s : Backend)
      → IsSane now s
      → ((is_open cfg key now s).0 ≡ ok true) ↔ IsOpen key now s
  is_open_iff key now s sane = elim (Option-cases (lookup key s.tripped_at)) [
    | inl closed ↦ (
      λ h. inr (closed, (closed_iff key now s sane closed).0 h),
      elim [
        | inl (t, e, _) ↦ absurd (ground arith)
        | inr (_, f) ↦ (closed_iff key now s sane closed).1 f
      ],
    )
    | inr (t, e) ↦ (
      λ h. inl (t, e, (tripped_iff key now t s e).0 h),
      elim [
        | inl (u, e', lt) ↦ (tripped_iff key now t s e).1 (ground arith)
        | inr (e', _) ↦ absurd (ground arith)
      ],
    )
  ]
