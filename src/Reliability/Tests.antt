-- ===== src/Reliability/Tests.antt =====
-- The two backends on a circuit of one agent and one tool.
use compliance_framework.Prelude.{
  ℕ, String, Bool-cases, inl, inr, ◌==◌, eq_refl, eq_iff, true, false, not, Dict, insert,
  lookup-insert, Option, map, ℤ, pos, negsuc, Exec, ◌++◌, ◌*◌, ◌≡◌, refl, ◌↔◌, none, some, filter,
  List, [], ◌∷◌, lookup, ok, arith,
}
use compliance_framework.Reliability.Facade.{key_for}
use compliance_framework.Reliability.InMemory.Separation.{IsElsewhere, is_open_separate}
use compliance_framework.Reliability.InMemory
use compliance_framework.Reliability.Redis
use compliance_framework.Reliability.Redis.{RedisClient, events_key, tripped_key}
use compliance_framework.Reliability.Redis.Client.{View, IsRedis, in_range}
use compliance_framework.Reliability.Redis.Agreement.{stored, events, is_open_agrees}
use compliance_framework.Reliability.Redis.Cooldowns.{cooldowns_differ}
use compliance_framework.Reliability.InMemory.{
  reaches, failures, Config, Event, Backend, start, drop_old, events_of, record_outcome, is_open,
  or_empty,
}
use compliance_framework.Reliability.InMemory.Window.{IsSane}
use compliance_framework.Reliability.InMemory.Opening.{IsOpen, is_open_iff}
use compliance_framework.Reliability.InMemory.Cooldown.{
  Op, record_op, ask, run, stays_open, closes_after_cooldown,
}

abbrev settings : Config
settings = record {
  window = 60;
  threshold_num = 1;
  threshold_den = 2;
  min_samples = 1;
  cooldown = 30;
}

abbrev one_failure : List Event
one_failure = record { at = 10; success = false } ∷ record { at = 80; success = true } ∷ []

start-IsSane : IsSane 5 start
unfolding events_of lookup
start-IsSane = record { ordered = λ key. tt }

is_open_iff_example :
    ((is_open settings "agent-1:deploy_tool" 5 start).0 ≡ ok true)
    ↔ IsOpen settings "agent-1:deploy_tool" 5 start
is_open_iff_example = is_open_iff settings "agent-1:deploy_tool" 5 start start-IsSane

abbrev tripped : Backend
tripped = record { events = []; tripped_at = ("agent-1:deploy_tool", 10) ∷ [] }

abbrev meanwhile : List (Op × ℕ)
meanwhile = (record_op true "agent-1:deploy_tool", 12) ∷ (ask "agent-1:deploy_tool", 20) ∷ []

tripped_lookup : lookup "agent-1:deploy_tool" tripped.tripped_at ≡ some 10
unfolding lookup
tripped_lookup = refl

stays_open_example :
    is_open settings "agent-1:deploy_tool" 39 (run settings meanwhile tripped)
    ≡ (ok true, run settings meanwhile tripped)
stays_open_example =
    stays_open settings "agent-1:deploy_tool" 10 39 tripped meanwhile tripped_lookup
      (omega arith, (omega arith, tt)) (omega arith)

closes_after_cooldown_example :
    let (answer, s') = is_open settings "agent-1:deploy_tool" 40 (run settings meanwhile tripped) in
    (answer ≡ ok false)
    × (lookup "agent-1:deploy_tool" s'.tripped_at ≡ none)
    × (events_of s' "agent-1:deploy_tool" ≡ [])
closes_after_cooldown_example =
    closes_after_cooldown settings "agent-1:deploy_tool" 10 40 tripped meanwhile tripped_lookup
      (omega arith, (omega arith, tt)) (omega arith)

-- A server of Redis that stores sorted sets and times to live.
record Server : Type 0 where
  sets : Dict (List (String × ℕ))
  lives : Dict ℤ
  now : ℕ

abbrev or_gone : Option ℤ → ℤ
or_gone none = negsuc 1
or_gone (some n) = n

abbrev or_no_members : Option (List (String × ℕ)) → List (String × ℕ)
or_no_members none = []
or_no_members (some xs) = xs

abbrev view : View Server
view = record {
  zset = λ w key. or_no_members (lookup key w.sets);
  left = λ w key. or_gone (lookup key w.lives);
}

abbrev put : String → List (String × ℕ) → Exec Server (Unit {0})
put key xs w = (ok tt, record w { sets = insert key xs w.sets })

abbrev server : RedisClient Server
server = record {
  zadd = λ key m score w. put key (view.zset w key ++ (m, score) ∷ []) w;
  zremrangebyscore = λ key low high w.
      put key (filter (λ entry. not (in_range low high entry)) (view.zset w key)) w;
  expire = λ key seconds w. (ok tt, record w { lives = insert key (pos seconds) w.lives });
  zrange = λ key w. (ok (map (λ (entry : String × ℕ). entry.0) (view.zset w key)), w);
  ttl = λ key w. (ok (view.left w key), w);
  setex = λ key seconds text w. (ok tt, record w { lives = insert key (pos seconds) w.lives });
  time = λ w. w.now;
  time_ns = λ w. w.now * 1000000000;
}

server-IsRedis : IsRedis server view
server-IsRedis = record {
  ttl_reads = λ key w. refl;
  zrange_reads = λ key w. refl;
  trim_answers = λ key low high w. refl;
  trim_removes = λ key low high w. rw (lookup-insert, eq_refl) refl;
  setex_answers = λ key seconds text w. refl;
}

-- Two events, one of them out of the window.
abbrev recorded : List (ℕ × Event)
recorded =
    (10000000000, record { at = 10; success = true })
    ∷ (80000000000, record { at = 80; success = false })
    ∷ []

abbrev serving : Server
unfolding events_key
serving = record {
  sets = (events_key "aimw:cb" "agent-1:deploy_tool", stored recorded) ∷ [];
  lives = [];
  now = 100;
}

abbrev in_process : Backend
in_process = record { events = ("agent-1:deploy_tool", events recorded) ∷ []; tripped_at = [] }

in_process-IsSane : IsSane 100 in_process
unfolding events_of lookup
in_process-IsSane = record {
  ordered = λ key. elim (Bool-cases ("agent-1:deploy_tool" == key)) [
    | inl same ↦ rw same (omega arith, (omega arith, tt), (omega arith, tt, tt))
    | inr other ↦ rw other tt
  ];
}

is_open_agrees_example :
    (Redis.is_open server "aimw:cb" settings "agent-1:deploy_tool" serving).0
    ≡ (InMemory.is_open settings "agent-1:deploy_tool" 100 in_process).0
unfolding lookup events_of serving
is_open_agrees_example =
    is_open_agrees server view server-IsRedis "aimw:cb" settings "agent-1:deploy_tool" serving
      in_process recorded refl refl refl refl in_process-IsSane (omega arith, (omega arith, tt))

-- A failure of another tool, and questions about it.
abbrev elsewhere : List (Op × ℕ)
elsewhere =
    (record_op false (key_for "agent-1" "sql_tool"), 12)
    ∷ (ask (key_for "agent-1" "sql_tool"), 20)
    ∷ []

same_agent : IsElsewhere "agent-1" "deploy_tool" (record_op false (key_for "agent-1" "sql_tool"))
same_agent = (
  "agent-1",
  "sql_tool",
  refl,
  ground arith,
  λ (e, f). let same = (eq_iff "sql_tool" "deploy_tool").1 f in absurd (ground (arith, same)),
)

other_tool : IsElsewhere "agent-1" "deploy_tool" (ask (key_for "agent-1" "sql_tool"))
other_tool = (
  "agent-1",
  "sql_tool",
  refl,
  ground arith,
  λ (e, f). let same = (eq_iff "sql_tool" "deploy_tool").1 f in absurd (ground (arith, same)),
)

abbrev cooled : Backend
cooled = record in_process { tripped_at = ("agent-1:deploy_tool", 50) ∷ [] }

is_open_separate_example :
    (is_open settings (key_for "agent-1" "deploy_tool") 90 (run settings elsewhere cooled)).0
    ≡ (is_open settings (key_for "agent-1" "deploy_tool") 90 cooled).0
unfolding key_for
is_open_separate_example =
    is_open_separate settings "agent-1" "deploy_tool" elsewhere 90 cooled (ground arith)
      (same_agent, (other_tool, tt))

cooldowns_differ_example :
    ((Redis.is_open server "aimw:cb" settings "agent-1:deploy_tool" serving).0 ≡ ok true)
    × ((InMemory.is_open settings "agent-1:deploy_tool" 100 cooled).0 ≡ ok false)
unfolding lookup serving reaches failures
cooldowns_differ_example =
    cooldowns_differ server view server-IsRedis "aimw:cb" settings "agent-1:deploy_tool" serving
      cooled recorded 50 refl refl (omega arith) refl (omega arith, (omega arith, tt)) (omega arith)
      refl
