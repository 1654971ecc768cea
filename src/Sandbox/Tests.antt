-- ===== src/Sandbox/Tests.antt =====
-- The sandboxes on one call, in a world that counts the processes that were started.
use compliance_framework.Prelude.{
  ℕ, ◌+◌, String, true, ◌≡◌, ◌↔◌, false, refl, some, List, [], ◌∷◌, ◌==◌, if◌then◌else◌, Exn,
  is_exception, Kind, ok, raise, pos, lookup,
}
use compliance_framework.Models.{arr, str, nil, cons, ToolRequest, SandboxResult}
use compliance_framework.Fixture.{runtime, engineer, deploy}
use compliance_framework.Interceptor.{succeeded}
use compliance_framework.Sandbox.Subprocess
use compliance_framework.Sandbox.Subprocess.{Timeout, SubprocessSandbox, implementation, register}
use compliance_framework.Sandbox.Subprocess.Outcome.{ran, execute_outcome}
use compliance_framework.Sandbox.Docker
use compliance_framework.Sandbox.Docker.{Process, Spawn, DockerSandbox, Hardening, parts}
use compliance_framework.Sandbox.Docker.Isolation.{contained, execute_isolated}

abbrev limit : Timeout
limit = record { ms = 5000; seconds = "5.0" }

abbrev in_process : SubprocessSandbox ℕ
unfolding register
in_process =
    register "deploy_tool" "deploy" (λ request context limit w. (some (ok "deployed"), w + 1))
      (record { implementations = []; timeout = limit })

execute_outcome_example :
    ((r : SandboxResult)
      → (Subprocess.execute (λ w. w) in_process deploy engineer 0).0 ≡ ok r
      → (succeeded r ≡ true) ↔ (
          (stdout : String) × ((ran (λ w. w) in_process deploy engineer 0).0 ≡ ok stdout)
          × (r.stdout ≡ stdout)))
    × ((e : Exn)
        → ((Subprocess.execute (λ w. w) in_process deploy engineer 0).0 ≡ raise e)
          ↔ (((ran (λ w. w) in_process deploy engineer 0).0 ≡ raise e) × (is_exception e ≡ false)))
execute_outcome_example = execute_outcome (λ w. w) in_process deploy engineer 0

abbrev container : DockerSandbox
container = record {
  hardening = Hardening.restricted;
  image = "python:3.12-slim";
  timeout = limit;
  memory_limit = "256m";
  cpus = "0.5";
}

abbrev listing : ToolRequest
listing = record deploy { parameters = ("command", arr (cons (str "ls") nil)) ∷ [] }

abbrev process : Process ℕ
process = record {
  communicate = λ limit w. (some (ok ("setup.py", "")), w);
  kill = λ w. (ok tt, w);
  wait = λ w. (ok tt, w);
  returncode = λ w. some (pos 0);
}

-- Starts a process for every command line, or for those whose fifth word is `none`.
abbrev starter : Spawn ℕ
starter argv w = (ok process, w + 1)

abbrev careful : Spawn ℕ
careful (docker ∷ run ∷ rm ∷ network ∷ kind ∷ words) w =
    if kind == "none"
    then (ok process, w + 1)
    else (raise (record { kind = Kind.value_error; message = "a network" }), w)
careful words w = (raise (record { kind = Kind.value_error; message = "no program" }), w)

same_start :
    (words : List String) (w : ℕ)
    → starter (contained container words) w ≡ careful (contained container words) w
same_start words w = refl

execute_isolated_example :
    Docker.execute runtime (λ w. w) container starter listing engineer 0
    ≡ Docker.execute runtime (λ w. w) container careful listing engineer 0
execute_isolated_example =
    execute_isolated runtime (λ w. w) container listing engineer starter careful
      (λ v vs w given. same_start (parts runtime (cons v vs)) w) 0

-- What the sandbox makes of the listing.
listed :
    (Docker.execute runtime (λ w. w) container starter listing engineer 0).0
    ≡ ok (record {
      stdout = "setup.py";
      stderr = "";
      exit_code = pos 0;
      duration_ms = 1;
      timed_out = false;
    })
unfolding Docker.execute Docker.build_command Docker.check_command lookup Docker.run_container
    Docker.settle_missing Docker.attend
listed = refl
