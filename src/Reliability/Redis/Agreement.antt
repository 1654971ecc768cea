-- ===== src/Reliability/Redis/Agreement.antt =====
-- The two backends against each other.
use compliance_framework.Prelude.{
  ℕ, ◌+◌, ◌≤◌, String, ◌<>◌, Bool, true, false, not, ◌==◌, eq_iff, ◌≡◌, ◌≢◌, refl, ap, sym, ◌∙◌,
  inl, inr, none, ltb, length, filter, All, List, [], ◌∷◌, map, lookup, pos, leb_ℤ, str_nat, Result,
  ok, Bool-cases, Result-cases, arith, if◌then◌else◌,
}
use Prim.Native.Char.{Char}
use Prim.Native.String.{count}
use text.Mathlib.TextLemmas.{
  nil-append, cons-append, length-append as count-append, length-cons as count-cons,
}
use compliance_framework.Reliability.InMemory
use compliance_framework.Reliability.InMemory.{Config, Event, Backend, reaches, events_of, drop_old}
use compliance_framework.Reliability.InMemory.Window.{is_recent, IsSane, drop_old-filter}
use compliance_framework.Reliability.Redis
use compliance_framework.Reliability.Redis.{
  RedisClient, sub_ℤ, ends_with, encode, events_key, tripped_key, trim, recent_events,
}
use compliance_framework.Reliability.Redis.Client.{View, IsRedis, in_range}

ends_with_failure : (a : String) → ends_with ":0" (a <> ":0") ≡ true
unfolding ends_with
ends_with_failure String.[] = ap (ends_with ":0") (nil-append ":0")
ends_with_failure (String.◌∷◌ c a) =
    ap (ends_with ":0") (cons-append c a ":0") ∙ later c (a <> ":0") (ends_with_failure a)
  where
    later :
        (c : Char) (s : String) → ends_with ":0" s ≡ true → ends_with ":0" (String.◌∷◌ c s) ≡ true
    later c s h = ground arith

ends_with-cons :
    (c : Char) (s : String)
    → 2 ≤ count s
    → ends_with ":0" s ≡ false
    → ends_with ":0" (String.◌∷◌ c s) ≡ false
unfolding ends_with
ends_with-cons c s long h = elim (Bool-cases (String.◌∷◌ c s == ":0")) [
  | inl same ↦
      absurd (
        omega
          (arith, long, sym (count-cons c s) ∙ ap count ((eq_iff (String.◌∷◌ c s) ":0").0 same)))
  | inr other ↦ ground arith
]

ends_with_success : (a : String) → ends_with ":0" (a <> ":1") ≡ false
unfolding ends_with
ends_with_success String.[] = ap (ends_with ":0") (nil-append ":1")
ends_with_success (String.◌∷◌ c a) =
    ap (ends_with ":0") (cons-append c a ":1")
    ∙ ends_with-cons c (a <> ":1") (omega (arith, count-append a ":1")) (ends_with_success a)

ends_with-encode : (ns : ℕ) (success : Bool) → ends_with ":0" (encode ns success) ≡ not success
unfolding encode
ends_with-encode ns true = ends_with_success (str_nat ns)
ends_with-encode ns false = ends_with_failure (str_nat ns)

-- The sorted set of events that were recorded at these times in nanoseconds.
abbrev pub stored : List (ℕ × Event) → List (String × ℕ)
stored = map (λ (ns, e). (encode ns e.success, e.at))

abbrev pub events : List (ℕ × Event) → List Event
events = map (λ (ns, e). e)

-- What `judge` says of a number of events and of failures.
abbrev pub verdict : Config → ℕ → ℕ → Result Bool
verdict cfg total failed = if ltb total cfg.min_samples then ok false else reaches cfg failed total

module _ (window now : ℕ) where
  abbrev kept : List (ℕ × Event) → List String
  kept es =
      map (λ (entry : String × ℕ). entry.0)
        (filter (λ entry. not (in_range (pos 0) (sub_ℤ now window) entry)) (stored es))

  abbrev pub OffBoundary : List Event → Type 0
  OffBoundary = All (λ e. e.at + window ≢ now)

  in_range_iff :
      (m : String) (e : Event)
      → e.at + window ≢ now
      → not (in_range (pos 0) (sub_ℤ now window) (m, e.at)) ≡ is_recent window now e
  unfolding sub_ℤ
  in_range_iff m e off = ground arith

  kept_counts :
      (es : List (ℕ × Event))
      → OffBoundary (events es)
      → (length (kept es) ≡ length (filter (is_recent window now) (events es)))
        × (Redis.failures (kept es) ≡ InMemory.failures (filter (is_recent window now) (events es)))
  unfolding Redis.failures InMemory.failures
  kept_counts [] h = (refl, refl)
  kept_counts ((ns, e) ∷ es) (off, h) = ground (
    arith,
    in_range_iff (encode ns e.success) e off,
    ends_with-encode ns e.success,
    kept_counts es h,
  )

module _ {W : Type 0} (redis : RedisClient W) (view : View W) (lawful : IsRedis redis view)
    (key_prefix : String) (cfg : Config) (key : String) where
  recent_events-kept :
      (w : W) (es : List (ℕ × Event))
      → view.zset w (events_key key_prefix key) ≡ stored es
      → (recent_events redis key_prefix cfg key w).0 ≡ ok (kept cfg.window (redis.time w) es)
  unfolding recent_events trim
  recent_events-kept w es e =
      let k = events_key key_prefix key in
      let high = sub_ℤ (redis.time w) cfg.window in
      let w' = (redis.zremrangebyscore k (pos 0) high w).1 in
      let left = ap (map (λ (entry : String × ℕ). entry.0)) (
        lawful.trim_removes k (pos 0) high w
        ∙ ap (filter (λ entry. not (in_range (pos 0) high entry))) e) in
      let answered = lawful.trim_answers k (pos 0) high w in
      let read =
        ap (λ (p : Result (List String) × W). p.0) (lawful.zrange_reads k w')
        ∙ ap (λ ms. ok ms) left in
      ground (arith, answered, read)

  judge-verdict :
      (w : W) (ms : List String)
      → (recent_events redis key_prefix cfg key w).0 ≡ ok ms
      → (Redis.judge redis key_prefix cfg key w).0 ≡ verdict cfg (length ms) (Redis.failures ms)
  unfolding Redis.judge Redis.trip
  judge-verdict w ms e =
      let w' = (recent_events redis key_prefix cfg key w).1 in
      let set = lawful.setex_answers (tripped_key key_prefix key) cfg.cooldown "1" w' in
      elim (Result-cases (reaches cfg (Redis.failures ms) (length ms))) [
        | inr (x, failed) ↦ ground arith
        | inl (b, reached) ↦ elim (Bool-cases b) [
          | inl trips ↦ ground arith
          | inr closed ↦ ground arith
        ]
      ]

  -- The second half of `is_open` goes by the events of the window.
  pub judge-recent :
      (w : W) (es : List (ℕ × Event))
      → view.zset w (events_key key_prefix key) ≡ stored es
      → OffBoundary cfg.window (redis.time w) (events es)
      → let recent = filter (is_recent cfg.window (redis.time w)) (events es) in
        (Redis.judge redis key_prefix cfg key w).0
        ≡ verdict cfg (length recent) (InMemory.failures recent)
  judge-recent w es held off =
      let now = redis.time w in
      let recent = filter (is_recent cfg.window now) (events es) in
      let (total, failed) = kept_counts cfg.window now es off in
      judge-verdict w (kept cfg.window now es) (recent_events-kept w es held)
      ∙ ap (λ n. verdict cfg n (Redis.failures (kept cfg.window now es))) total
      ∙ ap (λ n. verdict cfg (length recent) n) failed

  judge-verdict_in_memory :
      (now : ℕ) (s : Backend)
      → let es = drop_old cfg.window now (events_of s key) in
        (InMemory.judge cfg key now s).0 ≡ verdict cfg (length es) (InMemory.failures es)
  unfolding InMemory.judge InMemory.prune InMemory.trip
  judge-verdict_in_memory now s =
      let es = drop_old cfg.window now (events_of s key) in
      elim (Result-cases (reaches cfg (InMemory.failures es) (length es))) [
        | inr (x, failed) ↦ ground arith
        | inl (b, reached) ↦ elim (Bool-cases b) [
          | inl trips ↦ ground arith
          | inr closed ↦ ground arith
        ]
      ]

  -- Over a client that behaves as Redis documents, the Redis backend answers like the in-memory one:
  -- where neither has the circuit tripped, the sorted set of the key holds the events of the in-memory
  -- deque, which is in order, and none of them lies exactly on the edge of the window.
  pub is_open_agrees :
      (w : W) (s : Backend) (es : List (ℕ × Event))
      → leb_ℤ (view.left w (tripped_key key_prefix key)) (pos 0) ≡ true
      → lookup key s.tripped_at ≡ none
      → view.zset w (events_key key_prefix key) ≡ stored es
      → events_of s key ≡ events es
      → IsSane (redis.time w) s
      → OffBoundary cfg.window (redis.time w) (events es)
      → (Redis.is_open redis key_prefix cfg key w).0 ≡ (InMemory.is_open cfg key (redis.time w) s).0
  unfolding Redis.is_open InMemory.is_open
  is_open_agrees w s es expired closed held same sane off =
      let now = redis.time w in
      let pruned =
        drop_old-filter cfg.window now (events_of s key) (sane.ordered key)
        ∙ ap (filter (is_recent cfg.window now)) same in
      let answered = lawful.ttl_reads (tripped_key key_prefix key) w in
      let both : (Redis.judge redis key_prefix cfg key w).0 ≡ (InMemory.judge cfg key now s).0 =
        judge-recent w es held off
        ∙ ap (λ ds. verdict cfg (length ds) (InMemory.failures ds)) (sym pruned)
        ∙ sym (judge-verdict_in_memory now s) in
      ground (arith, both)
