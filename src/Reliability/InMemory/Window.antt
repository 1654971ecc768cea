-- ===== src/Reliability/InMemory/Window.antt =====
-- The sliding window: pruning keeps exactly the recent events.
use compliance_framework.Prelude.{
  ℕ, ◌+◌, ◌≤◌, String, Bool, ◌≡◌, refl, ◌∙◌, ltb, leb, Bool-cases, inl, inr, insert, length, filter,
  All, All-append, List, [], ◌∷◌, ◌++◌, Dict, lookup, lookup-insert, ◌==◌, arith, if◌then◌else◌,
}
use compliance_framework.Reliability.InMemory.{
  Config, Event, Backend, drop_old, or_empty, events_of, prune, record_outcome,
}

-- Each event is no later than those behind it, and none is later than now.
abbrev pub IsOrdered : ℕ → List Event → Type 0
IsOrdered now [] = Unit
IsOrdered now (e ∷ es) = (e.at ≤ now) × All (λ f. e.at ≤ f.at) es × IsOrdered now es

-- An event is recent if it lies in the window that ends now.
abbrev pub is_recent : ℕ → ℕ → Event → Bool
is_recent window now e = leb now (e.at + window)

filter_recent :
    (window now : ℕ) (es : List Event) (t : ℕ)
    → now ≤ t + window
    → All (λ f. t ≤ f.at) es
    → filter (is_recent window now) es ≡ es
filter_recent window now [] t h k = refl
filter_recent window now (e ∷ es) t h k = ground (arith, filter_recent window now es t h k.1)

-- Pruning a deque whose events are in the order of their times, none of them later than now, keeps
-- exactly the events in the window that ends now.
pub drop_old-filter :
    (window now : ℕ) (es : List Event)
    → IsOrdered now es
    → drop_old window now es ≡ filter (is_recent window now) es
unfolding drop_old
drop_old-filter window now [] h = refl
drop_old-filter window now (e ∷ es) (past, later, h) = elim (Bool-cases (ltb (e.at + window) now)) [
  | inl old ↦ ground (arith, drop_old-filter window now es h)
  | inr recent ↦ ground (arith, filter_recent window now es e.at)
]

All-drop_old :
    (P : Event → Type 0) (window now : ℕ) (es : List Event)
    → All P es
    → All P (drop_old window now es)
unfolding drop_old
All-drop_old P window now [] h = tt
All-drop_old P window now (e ∷ es) h = ground (arith, All-drop_old P window now es)

drop_old-IsOrdered :
    (window now past : ℕ) (es : List Event)
    → IsOrdered past es
    → IsOrdered past (drop_old window now es)
unfolding drop_old
drop_old-IsOrdered window now past [] h = tt
drop_old-IsOrdered window now past (e ∷ es) h =
    ground (arith, drop_old-IsOrdered window now past es)

pub length-drop_old :
    (window now : ℕ) (es : List Event) → length (drop_old window now es) ≤ length es
unfolding drop_old
length-drop_old window now [] = omega arith
length-drop_old window now (e ∷ es) = ground (arith, length-drop_old window now es)

IsOrdered-later :
    (past now : ℕ) (es : List Event) → past ≤ now → IsOrdered past es → IsOrdered now es
IsOrdered-later past now [] le h = tt
IsOrdered-later past now (e ∷ es) le h = (omega arith, h.1, IsOrdered-later past now es le h.2)

IsOrdered-append :
    (now : ℕ) (success : Bool) (es : List Event)
    → IsOrdered now es
    → IsOrdered now (es ++ record { at = now; success = success } ∷ [])
IsOrdered-append now success [] h = (omega arith, tt, tt)
IsOrdered-append now success (e ∷ es) h =
    (h.0, All-append (λ f. e.at ≤ f.at) es _ h.1 (h.0, tt), IsOrdered-append now success es h.2)

-- The events of each key are in the order of their times, which are past.
pub record IsSane (now : ℕ) (s : Backend) : Type 0 where
  pub ordered : (key : String) → IsOrdered now (events_of s key)

pub or_empty-insert :
    (key j : String) (es : List Event) (d : Dict (List Event))
    → or_empty (lookup j (insert key es d)) ≡ (if key == j then es else or_empty (lookup j d))
or_empty-insert key j es d =
    rw (lookup-insert key j es d)
      (elim (Bool-cases (key == j)) [ inl same ↦ rw same | inr other ↦ rw other ])

module _ (cfg : Config) where
  pub events_of-prune :
      (key j : String) (now : ℕ) (s : Backend)
      → events_of (prune cfg key now s).1 j
        ≡ (if key == j then drop_old cfg.window now (events_of s key) else events_of s j)
  unfolding prune events_of
  events_of-prune key j now s = or_empty-insert key j _ s.events

  pub events_of-record_outcome :
      (success : Bool) (key j : String) (now : ℕ) (s : Backend)
      → events_of (record_outcome cfg success key now s) j ≡ (
          if key == j
          then drop_old cfg.window now (events_of s key)
            ++ record { at = now; success = success } ∷ []
          else events_of s j)
  unfolding record_outcome prune events_of
  events_of-record_outcome success key j now s =
      let es = drop_old cfg.window now (events_of s key) in
      or_empty-insert key j (es ++ record { at = now; success = success } ∷ [])
        (insert key es s.events)
      ∙ elim (Bool-cases (key == j)) [
        | inl same ↦ rw same
        | inr other ↦ rw other (or_empty-insert key j es s.events ∙ rw other)
      ]

  -- Recording an outcome keeps the deques ordered, if the clock does not run backwards.
  pub record_outcome-IsSane :
      (success : Bool) (key : String) (past now : ℕ) (s : Backend)
      → past ≤ now
      → IsSane past s
      → IsSane now (record_outcome cfg success key now s)
  record_outcome-IsSane success key past now s le h = record {
    ordered = λ j. rw (events_of-record_outcome success key j now s) (elim (Bool-cases (key == j)) [
      | inl same ↦ rw same (
          IsOrdered-append now success _ (
            drop_old-IsOrdered cfg.window now now _
              (IsOrdered-later past now _ le (h.ordered key))))
      | inr other ↦ rw other (IsOrdered-later past now _ le (h.ordered j))
    ]);
  }
