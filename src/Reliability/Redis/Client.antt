-- ===== src/Reliability/Redis/Client.antt =====
-- What Redis documents of the commands, seen through the sorted sets and times to live of a world.
use compliance_framework.Prelude.{
  ℕ, String, Bool, not, ◌&&◌, ◌≡◌, filter, List, map, ℤ, pos, leb_ℤ, ok,
}
use compliance_framework.Reliability.Redis.{RedisClient}

-- The members of a sorted set with their scores, and the time that a key has left; that is not above
-- 0 for a key that is not there.
pub record View (W : Type 0) : Type 0 where
  pub zset : W → String → List (String × ℕ)
  pub left : W → String → ℤ

abbrev pub in_range : ℤ → ℤ → String × ℕ → Bool
in_range low high entry = leb_ℤ low (pos entry.1) && leb_ℤ (pos entry.1) high

pub record IsRedis {W : Type 0} (redis : RedisClient W) (view : View W) : Type 0 where
  pub ttl_reads : (key : String) (w : W) → redis.ttl key w ≡ (ok (view.left w key), w)
  pub zrange_reads :
      (key : String) (w : W)
      → redis.zrange key w ≡ (ok (map (λ (entry : String × ℕ). entry.0) (view.zset w key)), w)
  pub trim_answers :
      (key : String) (low high : ℤ) (w : W) → (redis.zremrangebyscore key low high w).0 ≡ ok tt
  pub trim_removes :
      (key : String) (low high : ℤ) (w : W)
      → view.zset (redis.zremrangebyscore key low high w).1 key
        ≡ filter (λ entry. not (in_range low high entry)) (view.zset w key)
  pub setex_answers :
      (key : String) (seconds : ℕ) (text : String) (w : W)
      → (redis.setex key seconds text w).0 ≡ ok tt
