-- ===== src/Reliability/Redis/Cooldowns.antt =====
-- The two backends after a cooldown.
use compliance_framework.Prelude.{
  ℕ, ◌+◌, ◌≤◌, String, true, false, some, ◌≡◌, ◌∙◌, length, filter, List, lookup, pos, leb_ℤ, ok,
  arith,
}
use compliance_framework.Reliability.InMemory
use compliance_framework.Reliability.InMemory.{Config, Event, Backend, reaches, events_of, drop_old}
use compliance_framework.Reliability.InMemory.Window.{is_recent}
use compliance_framework.Reliability.Redis
use compliance_framework.Reliability.Redis.{
  RedisClient, sub_ℤ, ends_with, encode, events_key, tripped_key, trim, recent_events,
}
use compliance_framework.Reliability.Redis.Client.{View, IsRedis}
use compliance_framework.Reliability.Redis.Agreement.{
  stored, events, verdict, OffBoundary, judge-recent,
}

module _ {W : Type 0} (redis : RedisClient W) (view : View W) (lawful : IsRedis redis view)
    (key_prefix : String) (cfg : Config) (key : String) where
  -- The two backends part after a cooldown. Over a client that behaves as Redis documents, where both
  -- had the circuit tripped and the cooldown is over on both, and the sorted set still holds events of
  -- the window (none exactly on its edge) that reach the sample count and the threshold, the Redis
  -- backend says that the circuit is open, with no new event, and the in-memory backend that it is
  -- closed.
  pub cooldowns_differ :
      (w : W) (s : Backend) (es : List (ℕ × Event)) (t : ℕ)
      → leb_ℤ (view.left w (tripped_key key_prefix key)) (pos 0) ≡ true
      → lookup key s.tripped_at ≡ some t
      → t + cfg.cooldown ≤ redis.time w
      → view.zset w (events_key key_prefix key) ≡ stored es
      → OffBoundary cfg.window (redis.time w) (events es)
      → let recent = filter (is_recent cfg.window (redis.time w)) (events es) in
        cfg.min_samples ≤ length recent
        → reaches cfg (InMemory.failures recent) (length recent) ≡ ok true
        → ((Redis.is_open redis key_prefix cfg key w).0 ≡ ok true)
          × ((InMemory.is_open cfg key (redis.time w) s).0 ≡ ok false)
  unfolding Redis.is_open InMemory.is_open
  cooldowns_differ w s es t expired tripped over held off enough bad =
      let now = redis.time w in
      let recent = filter (is_recent cfg.window now) (events es) in
      let answered = lawful.ttl_reads (tripped_key key_prefix key) w in
      let trips : verdict cfg (length recent) (InMemory.failures recent) ≡ ok true =
        ground (arith, enough, bad) in
      let opens = judge-recent redis view lawful key_prefix cfg key w es held off ∙ trips in
      (ground (arith, opens), ground arith)
