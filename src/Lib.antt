-- ===== src/Lib.antt =====
-- A model of ai-governance-middleware (src/aimw), which stands between an agent and its tools: a
-- gateway authenticates and counts prompts, a policy engine decides on each tool call, a human may be
-- asked, a sandbox runs what is left, and an audit log records the outcome in a chain of hashes.
--
-- The parts, each with the file of the repository that it models:
--   Models, Models/Values       src/aimw/models.py and SandboxResult of sandbox/base.py. A value of
--                               an `Any` field is a JSON value; a float is the text of its `repr`.
--   Runtime                     what the program takes from Python: `re`, `int`, `repr`, `json.dumps`,
--                               SHA-256, `shlex.join` and some methods of `str` are fields of a record,
--                               on which the definitions depend.
--   Policy/Rules                src/aimw/policy/rules.py; Policy/Example is the configuration
--                               configs/policy.example.yaml as it is loaded.
--   Policy/Gates, Checks        the checks that both engines make in the same words. A check passes,
--                               denies with a reason, or raises.
--   Policy/StaticEngine         src/aimw/policy/static_engine.py: `_evaluate` is `checks`, and
--                               `evaluate_tool_call` is `evaluate`.
--   Policy/DbRules, DbEngine    src/aimw/policy/db_rules.py and db_engine.py. A table is the list of
--                               its rows, and a query filters it.
--   Policy/Parity, Seeded       the two engines against each other.
--   Registry                    src/aimw/registry/: which tools a context is shown.
--   Audit                       src/aimw/audit/: records, the log (WormLog), the sinks that records
--                               are forwarded to (Siem), and the classification of texts (Dlp).
--   Reliability/InMemory        InMemoryCircuitBreakerBackend of src/aimw/reliability/
--                               circuit_breaker.py; Reliability/Facade is its CircuitBreaker.
--   Reliability/Redis           RedisCircuitBreakerBackend of the same file, over any client of Redis;
--                               Redis/Client holds what Redis documents of the commands, as laws that
--                               the theorems take as a parameter.
--   Sandbox                     src/aimw/sandbox/subprocess_sandbox.py (Subprocess) and
--                               docker_sandbox.py (Docker); what starts a process is a parameter.
--   Interceptor                 src/aimw/interceptor.py: `handle` is cut at its `try` and `if`
--                               statements into `check_breaker`, `attempt`, `run_decided`,
--                               `run_allowed` and `finish`. Interceptor/Concurrent has many calls at
--                               once: each is at a point of `handle` between two awaits, and a step
--                               relation picks one of them, begins another or changes the world.
--   Guardrails, Identity, Hitl, Gateway
--                               src/aimw/guardrails/patterns.py and regex_pii.py,
--                               identity/static_bearer.py, hitl/approval.py, gateway/shim.py.
--   Identity/SessionToken       src/aimw/identity/session_token.py. A time is whole seconds and a rest, a
--                               secret is a text, and HMAC and its comparison are fields of a record.
--   Guardrails/Semantic         src/aimw/guardrails/semantic.py; Guardrails/Tokens is its `findall` and
--                               Python's sets, as lists that hold nothing twice.
--   Pipeline                    src/aimw/pipeline.py. `run` is cut into the loop over the proposed calls
--                               (`handle_calls`), what follows it (`respond`), and what precedes it;
--                               the guardrail is any one that keeps no state.
--   Assembly                    the pipelines that `make_pipeline` builds in examples/run_demo.py and
--                               examples/run_demo_l2.py: engines, breaker and approval queue as the
--                               interceptor's parts, over a world that holds the shared objects where a
--                               record (Host) says. Assembly/Levels has the theorems on their runs.
--   Examples                    `main` of examples/run_demo.py (RunDemo) and run_demo_l2.py (RunDemoL2),
--                               in the order of their statements, on a log and a world of their own.
--   Audit/WormLog/Growth, Interceptor/Growth, Pipeline/Growth
--                               how the log grows, from one record to a run of the pipeline.
--   Prelude, Fixture            shared types and lemmas; the data on which the tests run.
--
-- How state and failure are modelled. An operation that changes an object takes its state and returns
-- the new one beside an answer that is a value or an exception (`Exec`, `Result`). The interceptor's
-- policy engine, sandbox, approval callback and breaker act on a world of any type; a coroutine under a
-- time limit answers or does not, and `wait_for` makes a timeout of the latter. An exception has a kind,
-- which says which `except` clause catches it: a cancellation is no `Exception`. The dictionaries of
-- Python are association lists.
--
-- Bounds. Python's numbers are unbounded, so nothing wraps. Every loop is structural recursion and no
-- fuel is needed. Times are natural numbers in a unit of the reader's choice, and the breaker's failure
-- threshold is a fraction, compared without rounding, where the program divides floats.
--
-- A coroutine is suspended only where it awaits, so a step of a call of `handle` is one awaited part,
-- with what follows it up to the next; such a part is one step, with the world that it meets and the
-- world that it leaves. The approval callback and what starts a process are taken to answer or to raise:
-- the program sets no time limit for the callback, and a call whose callback never answers stays where
-- it is, as one of the calls of Interceptor/Concurrent that no step picks.
--
-- Not modelled: the settings (config.py), which no code uses; YAML, pydantic's validation, SQLite, log
-- messages and printing, which are other packages, input or output (`load_ruleset` takes the first two
-- as parameters, the change of a line in run_demo.py is one); the abstract base classes, which hold no
-- code, and the exception classes, which are the kinds of an exception. A write to the log fails before it writes anything or
-- succeeds, and one process writes to a log. A file
-- is its lines: a last line without a newline, to which `append` would add its record, is left out, and so
-- are the texts that `encode` refuses (lone surrogates), for which hashing raises. The sum of a time and the
-- time to live of a token is exact. A score and its threshold are quotients, compared without
-- rounding, where the semantic guardrail compares floats.
mod Prelude
pub mod Fixture
pub mod Models
pub mod Runtime
pub mod Policy
pub mod Registry
pub mod Audit
pub mod Reliability
pub mod Interceptor
pub mod Guardrails
pub mod Identity
pub mod Gateway
pub mod Hitl
pub mod Pipeline
pub mod Sandbox
pub mod Assembly
pub mod Examples
