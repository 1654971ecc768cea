-- ===== src/Reliability/Redis.antt =====
-- `RedisCircuitBreakerBackend` of reliability/circuit_breaker.py, over any client of Redis.
pub mod Client
pub mod Agreement
pub mod Cooldowns
use compliance_framework.Prelude.{
  ℕ, suc, ◌+◌, ◌-◌, ◌*◌, String, ◌<>◌, Bool, true, false, ◌&&◌, ◌||◌, ◌==◌, ltb, leb, length,
  filter, List, [], ◌∷◌, ℤ, pos, negsuc, leb_ℤ, str_nat, Ratio, Result, ok, raise, Exec,
  if◌then◌else◌,
}
use compliance_framework.Reliability.InMemory.{Config, reaches}
use compliance_framework.Reliability.Facade.{BackendOps}

-- The commands of the client that the backend sends, and the clocks that it reads.
pub record RedisClient (W : Type 0) : Type 0 where
  pub zadd : String → String → ℕ → Exec W (Unit {0})
  pub zremrangebyscore : String → ℤ → ℤ → Exec W (Unit {0})
  pub expire : String → ℕ → Exec W (Unit {0})
  -- `zrange(key, 0, -1)`, its members decoded
  pub zrange : String → Exec W (List String)
  pub ttl : String → Exec W ℤ
  pub setex : String → ℕ → String → Exec W (Unit {0})
  -- `time.time()` in the unit of the window, and `time.time_ns()`
  pub time : W → ℕ
  pub time_ns : W → ℕ

-- `a - b`
unfoldable pub sub_ℤ : ℕ → ℕ → ℤ
sub_ℤ a b = if ltb a b then negsuc (b - suc a) else pos (a - b)

-- `text.endswith(suffix)`, for a suffix that is not empty
unfoldable pub ends_with : String → String → Bool
ends_with suffix String.[] = false
ends_with suffix (String.◌∷◌ c s) = (String.◌∷◌ c s == suffix) || ends_with suffix s

infixl 5 ◌>>=◌ ◌>>◌
abbrev pub ◌>>=◌ : {W A B : Type 0} → Exec W A → (A → Exec W B) → Exec W B
◌>>=◌ m f w = let (r, w') = m w in elim r [ raise e ↦ (raise e, w') | ok a ↦ f a w' ]

abbrev pub ◌>>◌ : {W B : Type 0} → Exec W (Unit {0}) → Exec W B → Exec W B
m >> k = m >>= λ _. k

abbrev pub answer : {W A : Type 0} → A → Exec W A
answer a w = (ok a, w)

-- f"{ns}:{int(success)}"
unfoldable pub encode : ℕ → Bool → String
encode ns success = str_nat ns <> (if success then ":1" else ":0")

unfoldable pub failures : List String → ℕ
failures events = length (filter (ends_with ":0") events)

unfoldable pub events_key : String → String → String
events_key key_prefix key = key_prefix <> ":events:" <> key

unfoldable pub tripped_key : String → String → String
tripped_key key_prefix key = key_prefix <> ":tripped:" <> key

module _ {W : Type 0} (redis : RedisClient W) (key_prefix : String) (cfg : Config) where
  -- Removes the events that are out of the window.
  unfoldable pub trim : String → Exec W (Unit {0})
  trim key w =
      redis.zremrangebyscore (events_key key_prefix key) (pos 0) (sub_ℤ (redis.time w) cfg.window) w

  -- `_record`
  unfoldable pub record_outcome : Bool → String → Exec W (Unit {0})
  record_outcome success key w =
      (redis.zadd (events_key key_prefix key) (encode (redis.time_ns w) success) (redis.time w)
          >> trim key
          >> redis.expire (events_key key_prefix key) (cfg.window * 2))
        w

  unfoldable pub recent_events : String → Exec W (List String)
  recent_events key = trim key >> redis.zrange (events_key key_prefix key)

  unfoldable pub score : String → Exec W Ratio
  score key = do
    events ← recent_events key
    answer (elim events [
      | [] ↦ record { num = 0; den = 1 }
      | e ∷ es ↦ record { num = failures (e ∷ es); den = length (e ∷ es) }
    ])

  -- The circuit trips if the rate reaches the threshold.
  unfoldable pub trip : String → Result Bool → Exec W Bool
  trip key (raise e) w = (raise e, w)
  trip key (ok false) w = (ok false, w)
  trip key (ok true) w =
      (redis.setex (tripped_key key_prefix key) cfg.cooldown "1" >> answer true) w

  -- the second half of `is_open`
  unfoldable pub judge : String → Exec W Bool
  judge key = do
    events ← recent_events key
    if ltb (length events) cfg.min_samples
        then answer false
        else trip key (reaches cfg (failures events) (length events))

  unfoldable pub is_open : String → Exec W Bool
  is_open key = do
    ttl ← redis.ttl (tripped_key key_prefix key)
    if leb_ℤ ttl (pos 0) then judge key else answer true

  -- the backend, for a `CircuitBreaker`
  unfoldable pub redis_backend : BackendOps W
  redis_backend = record {
    record_success = record_outcome true;
    record_failure = record_outcome false;
    is_open = is_open;
    score = score;
  }
