-- ===== src/Reliability/InMemory/Separation.antt =====
-- Circuits of different agents and tools do not touch each other.
use Prim.Native.Char.{Char, code}
use text.Mathlib.TextLemmas.{nil-append, cons-append}
use text.Mathlib.TextEquality.{Char-path}
use compliance_framework.Prelude.{
  All-map, ℕ, String, ◌<>◌, false, ◌≡◌, refl, sym, ap, ◌∙◌, inl, inr, Bool-cases, Option-cases,
  List-cases, Result-cases, length, All, List, [], ◌∷◌, lookup, ◌==◌, eq_iff, eqb, arith,
}
use compliance_framework.Reliability.InMemory.{
  Config, Backend, score, is_open, events_of, judge, prune, trip, reaches, drop_old, failures,
  or_empty,
}
use compliance_framework.Reliability.InMemory.Window.{
  events_of-prune, events_of-record_outcome, or_empty-insert,
}
use compliance_framework.Reliability.InMemory.Cooldown.{
  Op, record_op, score_op, ask, step, run, tripped-record, tripped-score, tripped-ask,
}
use compliance_framework.Reliability.Facade.{key_for}

-- The key that an operation is about.
abbrev pub key_of : Op → String
key_of (record_op success key) = key
key_of (score_op key) = key
key_of (ask key) = key

module _ (cfg : Config) where
  -- `judge` leaves the events as `prune` does.
  events-judge :
      (key : String) (now : ℕ) (s : Backend)
      → (judge cfg key now s).1.events ≡ (prune cfg key now s).1.events
  unfolding judge trip prune
  events-judge key now s =
      let es = drop_old cfg.window now (events_of s key) in
      elim (Result-cases (reaches cfg (failures es) (length es))) [
        | inr (e, failed) ↦ ground arith
        | inl (b, reached) ↦ elim (Bool-cases b) [
          | inl trips ↦ ground arith
          | inr closed ↦ ground arith
        ]
      ]

  events_of-judge :
      (key j : String) (now : ℕ) (s : Backend)
      → (key == j) ≡ false
      → events_of (judge cfg key now s).1 j ≡ events_of s j
  unfolding events_of
  events_of-judge key j now s other =
      ap (λ d. or_empty (lookup j d)) (events-judge key now s)
      ∙ events_of-prune cfg key j now s
      ∙ rw other refl

  events_of-ask :
      (key j : String) (now : ℕ) (s : Backend)
      → (key == j) ≡ false
      → events_of (is_open cfg key now s).1 j ≡ events_of s j
  unfolding is_open events_of
  events_of-ask key j now s other = elim (Option-cases (lookup key s.tripped_at)) [
    | inl closed ↦ ground (arith, events_of-judge key j now s other)
    | inr (t, tripped) ↦ ground (arith, or_empty-insert key j [] s.events)
  ]

  events_of-score :
      (key j : String) (now : ℕ) (s : Backend)
      → (key == j) ≡ false
      → events_of (score cfg key now s).1 j ≡ events_of s j
  unfolding score
  events_of-score key j now s other =
      let pruned = events_of-prune cfg key j now s in
      elim (List-cases (drop_old cfg.window now (events_of s key))) [
        | inl nothing ↦ ground arith
        | inr (e, es, found) ↦ ground arith
      ]

  step-other :
      (op : Op) (j : String) (now : ℕ) (s : Backend)
      → (key_of op == j) ≡ false
      → (lookup j (step cfg op now s).tripped_at ≡ lookup j s.tripped_at)
        × (events_of (step cfg op now s) j ≡ events_of s j)
  step-other (record_op b key) j now s other = (
    ap (lookup j) (tripped-record cfg b key now s),
    events_of-record_outcome cfg b key j now s ∙ rw other refl,
  )
  step-other (score_op key) j now s other =
      (ap (lookup j) (tripped-score cfg key now s), events_of-score key j now s other)
  step-other (ask key) j now s other =
      (tripped-ask cfg key j now s other, events_of-ask key j now s other)

  run-other :
      (ops : List (Op × ℕ)) (j : String) (s : Backend)
      → All (λ entry. (key_of entry.0 == j) ≡ false) ops
      → (lookup j (run cfg ops s).tripped_at ≡ lookup j s.tripped_at)
        × (events_of (run cfg ops s) j ≡ events_of s j)
  unfolding run
  run-other [] j s h = (refl, refl)
  run-other ((op, now) ∷ ops) j s h =
      let (tripped, events) = run-other ops j (step cfg op now s) h.1 in
      let (tripped', events') = step-other op j now s h.0 in (tripped ∙ tripped', events ∙ events')

  judge_same :
      (j : String) (now : ℕ) (s s' : Backend)
      → events_of s j ≡ events_of s' j
      → (judge cfg j now s).0 ≡ (judge cfg j now s').0
  unfolding judge trip prune
  judge_same j now s s' f =
      let es = drop_old cfg.window now (events_of s j) in
      let same = ap (drop_old cfg.window now) f in
      elim (Result-cases (reaches cfg (failures es) (length es))) [
        | inr (e, failed) ↦ ground arith
        | inl (b, reached) ↦ elim (Bool-cases b) [
          | inl trips ↦ ground arith
          | inr closed ↦ ground arith
        ]
      ]

  -- The answer of `is_open` depends on the circuit's own trip time and events.
  is_open_same :
      (j : String) (now : ℕ) (s s' : Backend)
      → lookup j s.tripped_at ≡ lookup j s'.tripped_at
      → events_of s j ≡ events_of s' j
      → (is_open cfg j now s).0 ≡ (is_open cfg j now s').0
  unfolding is_open
  is_open_same j now s s' e f = elim (Option-cases (lookup j s.tripped_at)) [
    | inl closed ↦ ground (arith, judge_same j now s s' f)
    | inr (t, tripped) ↦ ground arith
  ]

-- The text has no colon.
abbrev pub IsColonless : String → Type 0
IsColonless String.[] = Unit
IsColonless (String.◌∷◌ c s) = (eqb (code c) b':' ≡ false) × IsColonless s

abbrev first : String → ℕ
first String.[] = 0
first (String.◌∷◌ c s) = code c

abbrev tail : String → String
tail String.[] = String.[]
tail (String.◌∷◌ c s) = s

abbrev colon : Char
colon = ":"

colon-append : (s : String) → ":" <> s ≡ String.◌∷◌ colon s
colon-append s = cons-append colon String.[] s ∙ ap (String.◌∷◌ colon) (nil-append s)

-- A text is cut at its first colon in one way.
colon_cut :
    (a b s t : String)
    → IsColonless a
    → IsColonless b
    → a <> (":" <> s) ≡ b <> (":" <> t)
    → (a ≡ b) × (s ≡ t)
colon_cut String.[] String.[] s t h k e =
    let e' =
      sym (nil-append (":" <> s) ∙ colon-append s) ∙ e ∙ (nil-append (":" <> t) ∙ colon-append t) in
    (refl, ap tail e')
colon_cut String.[] (String.◌∷◌ d b) s t h k e =
    let e' = sym (nil-append (":" <> s) ∙ colon-append s) ∙ e ∙ cons-append d b (":" <> t) in
    absurd (let same = ap first e' in ground (arith, same, k.0))
colon_cut (String.◌∷◌ c a) String.[] s t h k e =
    let e' = sym (cons-append c a (":" <> s)) ∙ e ∙ (nil-append (":" <> t) ∙ colon-append t) in
    absurd (let same = ap first e' in ground (arith, same, h.0))
colon_cut (String.◌∷◌ c a) (String.◌∷◌ d b) s t h k e =
    let e' = sym (cons-append c a (":" <> s)) ∙ e ∙ cons-append d b (":" <> t) in
    let (heads, tails) = colon_cut a b s t h.1 k.1 (ap tail e') in
    (ap (λ x. String.◌∷◌ x a) (Char-path c d (ap first e')) ∙ ap (String.◌∷◌ d) heads, tails)

key_for-injective :
    (agent agent' tool tool' : String)
    → IsColonless agent
    → IsColonless agent'
    → key_for agent tool ≡ key_for agent' tool'
    → (agent ≡ agent') × (tool ≡ tool')
unfolding key_for
key_for-injective agent agent' tool tool' h k e = colon_cut agent agent' tool tool' h k e

-- The operation is on the circuit of another agent or another tool.
abbrev pub IsElsewhere : String → String → Op → Type 0
IsElsewhere agent tool op =
    (agent' : String) × (tool' : String) × (key_of op ≡ key_for agent' tool')
    × IsColonless agent'
    × ¬ ((agent' ≡ agent) × (tool' ≡ tool))

-- A circuit is the business of its agent and its tool alone: whatever operations are done on the
-- circuits of other agents or other tools, and whenever, the answer of `is_open` is the same as
-- without them, if no name of an agent has a colon.
pub is_open_separate :
    (cfg : Config) (agent tool : String) (ops : List (Op × ℕ)) (now : ℕ) (s : Backend)
    → IsColonless agent
    → All (λ entry. IsElsewhere agent tool entry.0) ops
    → (is_open cfg (key_for agent tool) now (run cfg ops s)).0
      ≡ (is_open cfg (key_for agent tool) now s).0
is_open_separate cfg agent tool ops now s h elsewhere =
    let (tripped, events) = run-other cfg ops (key_for agent tool) s (
      All-map
        (λ entry (agent', tool', e, k, other).
          elim (Bool-cases (key_of entry.0 == key_for agent tool)) [
            | inr distinct ↦ distinct
            | inl same ↦ absurd (
                other (
                  key_for-injective agent' agent tool' tool k h
                    (sym e ∙ (eq_iff (key_of entry.0) (key_for agent tool)).0 same)))
          ])
        ops elsewhere) in
    is_open_same cfg (key_for agent tool) now (run cfg ops s) s tripped events
