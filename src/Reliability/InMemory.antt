-- ===== src/Reliability/InMemory.antt =====
-- `InMemoryCircuitBreakerBackend` of reliability/circuit_breaker.py. Times are whole numbers of some
-- unit; the failure threshold is a fraction; each operation is given the `time.monotonic()` that it
-- reads.
pub mod Window
pub mod Opening
pub mod Cooldown
pub mod Separation
use compliance_framework.Prelude.{
  Ratio, ℕ, zero, suc, ◌+◌, ◌*◌, String, Bool, true, false, Option, none, some, ltb, leb, eqb,
  length, List, [], ◌∷◌, ◌++◌, Dict, lookup, insert, remove, Kind, Exn, Result, ok, raise, Exec,
  if◌then◌else◌,
}

pub record Config : Type 0 where
  pub window : ℕ
  pub threshold_num : ℕ
  pub threshold_den : ℕ
  pub min_samples : ℕ
  pub cooldown : ℕ

pub record Event : Type 0 where
  pub at : ℕ
  pub success : Bool

pub record Backend : Type 0 where
  pub events : Dict (List Event)
  pub tripped_at : Dict ℕ

abbrev pub start : Backend
start = record { events = []; tripped_at = [] }

-- `sum(1 for _, success in events if not success)`
unfoldable pub failures : List Event → ℕ
failures [] = 0
failures (e ∷ es) = (if e.success then 0 else 1) + failures es

-- `failures / len(events) >= threshold`
unfoldable pub reaches : Config → ℕ → ℕ → Result Bool
reaches cfg failed total =
    if eqb total 0
    then raise (record { kind = Kind.other_error; message = "division by zero" })
    else ok (leb (cfg.threshold_num * total) (failed * cfg.threshold_den))

-- the loop of `_prune`: `at < now - window`
unfoldable pub drop_old : ℕ → ℕ → List Event → List Event
drop_old window now [] = []
drop_old window now (e ∷ es) = elim (ltb (e.at + window) now) [
  | true ↦ drop_old window now es
  | false ↦ e ∷ es
]

-- the events of a key, none if it has no entry
abbrev pub or_empty : Option (List Event) → List Event
or_empty none = []
or_empty (some es) = es

unfoldable pub events_of : Backend → String → List Event
events_of s key = or_empty (lookup key s.events)

module _ (cfg : Config) where
  -- `_prune` returns the deque, which is also the entry of the key.
  unfoldable pub prune : String → ℕ → Backend → List Event × Backend
  unfolding events_of
  prune key now s =
      let es = drop_old cfg.window now (events_of s key) in
      (es, record s { events = insert key es s.events })

  -- `record_success` and `record_failure`
  unfoldable pub record_outcome : Bool → String → ℕ → Backend → Backend
  unfolding prune
  record_outcome success key now s =
      let (es, s') = prune key now s in
      record s' {
        events = insert key (es ++ record { at = now; success = success } ∷ []) s'.events;
      }

  unfoldable pub score : String → ℕ → Backend → Ratio × Backend
  unfolding prune
  score key now s =
      let (es, s') = prune key now s in
      elim es [
        | [] ↦ (record { num = 0; den = 1 }, s')
        | e ∷ rest ↦ (record { num = failures (e ∷ rest); den = length (e ∷ rest) }, s')
      ]

  -- The circuit trips if the rate reaches the threshold.
  unfoldable pub trip : String → ℕ → Result Bool → Exec Backend Bool
  trip key now (raise e) s = (raise e, s)
  trip key now (ok false) s = (ok false, s)
  trip key now (ok true) s = (ok true, record s { tripped_at = insert key now s.tripped_at })

  -- the second half of `is_open`, for a circuit that is closed
  unfoldable pub judge : String → ℕ → Exec Backend Bool
  unfolding prune trip
  judge key now s =
      let (es, s') = prune key now s in
      if ltb (length es) cfg.min_samples
      then (ok false, s')
      else trip key now (reaches cfg (failures es) (length es)) s'

  unfoldable pub is_open : String → ℕ → Exec Backend Bool
  unfolding judge
  is_open key now s = elim (lookup key s.tripped_at) [
    | none ↦ judge key now s
    | some tripped ↦ if ltb now (tripped + cfg.cooldown) then (ok true, s) else (
      ok false,
      record { events = insert key [] s.events; tripped_at = remove key s.tripped_at },
    )
  ]
