-- ===== src/Sandbox/Docker.antt =====
-- sandbox/docker_sandbox.py, over whatever starts a process.
pub mod Isolation
use compliance_framework.Prelude.{
  ℕ, ◌-◌, String, ◌<>◌, Bool, true, false, Option, none, some, List, [], ◌∷◌, ◌++◌, lookup, ℤ, pos,
  Kind, Exn, is_timeout, Result, ok, raise, Exec, Task, wait_for,
}
use compliance_framework.Models.{
  Value, arr, Items, nil, cons, str_value, ExecutionContext, ToolRequest, SandboxResult,
}
use compliance_framework.Runtime.{Runtime}
use compliance_framework.Sandbox.Subprocess.{Timeout, failed}

-- A process of `asyncio`. `communicate` answers with the bytes of stdout and of stderr, here as the
-- texts that `decode("utf-8", errors="replace")` makes of them.
pub record Process (W : Type 0) : Type 0 where
  pub communicate : Task W (String × String)
  pub kill : Exec W (Unit {0})
  pub wait : Exec W (Unit {0})
  pub returncode : W → Option ℤ

-- `asyncio.create_subprocess_exec` with both streams piped
abbrev pub Spawn : Type 0 → Type 0
Spawn W = List String → Exec W (Process W)

-- `DockerSandbox` and its subclass `RestrictedDockerSandbox`
pub data Hardening : Type 0 where
  plain restricted : Hardening

pub record DockerSandbox : Type 0 where
  pub hardening : Hardening
  pub image : String
  pub timeout : Timeout
  pub memory_limit : String
  pub cpus : String

-- `_extra_docker_flags` of the two classes
unfoldable pub extra_docker_flags : Hardening → List String
extra_docker_flags plain = []
extra_docker_flags restricted =
    "--user" ∷ "65534:65534" ∷ "--read-only" ∷ "--tmpfs" ∷ "/tmp" ∷ "--cap-drop" ∷ "ALL"
    ∷ "--security-opt" ∷ "no-new-privileges" ∷ []

-- `proc.returncode or 0`
abbrev pub or_zero : Option ℤ → ℤ
or_zero none = pos 0
or_zero (some n) = n

abbrev pub bad_command : Exn
bad_command = record {
  kind = Kind.value_error;
  message = "DockerSandbox requires request.parameters['command'] to be a list of args";
}

module _ (py : Runtime) where
  -- `[str(part) for part in command]`
  unfoldable pub parts : Items → List String
  parts nil = []
  parts (cons v vs) = str_value py.repr v ∷ parts vs

  -- the test of `_build_command` on what the parameters hold, and its answer
  unfoldable pub check_command : Option Value → Result (List String)
  check_command (some (arr (cons v vs))) = ok (parts (cons v vs))
  check_command _ = raise bad_command

  unfoldable pub build_command : ToolRequest → Result (List String)
  build_command request = check_command (lookup "command" request.parameters)

-- The words in front of the command.
unfoldable pub docker_prefix : DockerSandbox → List String
docker_prefix sandbox =
    "docker"
      ∷ "run"
      ∷ "--rm"
      ∷ "--network"
      ∷ "none"
      ∷ "--memory"
      ∷ sandbox.memory_limit
      ∷ "--cpus"
      ∷ sandbox.cpus
      ∷ extra_docker_flags sandbox.hardening
    ++ sandbox.image ∷ []

unfoldable pub docker_command : DockerSandbox → List String → List String
docker_command sandbox inner_command = docker_prefix sandbox ++ inner_command

unfoldable pub format_command_for_log : Runtime → List String → String
format_command_for_log py command = py.shlex_join command

-- the clause `except FileNotFoundError`
unfoldable pub settle_missing : ℕ → Result SandboxResult → Result SandboxResult
settle_missing duration (ok r) = ok r
settle_missing duration (raise e) = elim e.kind [
  | Kind.file_not_found_error ↦ ok (failed "docker executable not found on PATH" 127 duration false)
  | _ ↦ raise e
]

module _ {W : Type 0} (clock : W → ℕ) (sandbox : DockerSandbox) (start : ℕ) where
  -- the clause `except TimeoutError`
  unfoldable pub kill_late : Process W → Exec W SandboxResult
  kill_late proc w =
      let (killed, w') = proc.kill w in
      elim killed [
        | raise e ↦ (raise e, w')
        | ok _ ↦
            let (waited, w'') = proc.wait w' in
            (
              elim waited [
                | raise e ↦ raise e
                | ok _ ↦ ok (
                    failed
                      ("container execution exceeded " <> sandbox.timeout.seconds <> "s timeout")
                      124 (clock w'' - start) true)
              ],
              w'',
            )
      ]

  -- The body of the outer `try`, once the process is there
  unfoldable pub attend : Process W → Exec W SandboxResult
  attend proc w =
      let (r, w') = wait_for sandbox.timeout.ms proc.communicate w in
      elim r [
        | ok (stdout, stderr) ↦ (
          ok (record {
            stdout = stdout;
            stderr = stderr;
            exit_code = or_zero (proc.returncode w');
            duration_ms = clock w' - start;
            timed_out = false;
          }),
          w',
        )
        | raise e ↦ elim (is_timeout e) [ true ↦ kill_late proc w' | false ↦ (raise e, w') ]
      ]

  -- the outer `try`
  unfoldable pub run_container : Spawn W → List String → Exec W SandboxResult
  run_container spawn argv w =
      let (proc, w') = spawn argv w in
      elim proc [
        | raise e ↦ (settle_missing (clock w' - start) (raise e), w')
        | ok p ↦ let (r, w'') = attend p w' in (settle_missing (clock w'' - start) r, w'')
      ]

module _ (py : Runtime) {W : Type 0} (clock : W → ℕ) where
  unfoldable pub execute :
      DockerSandbox → Spawn W → ToolRequest → ExecutionContext → Exec W SandboxResult
  execute sandbox spawn request context w = elim (build_command py request) [
    | raise e ↦ (ok (failed e.message 2 0 false), w)
    | ok inner_command ↦
        run_container clock sandbox (clock w) spawn (docker_command sandbox inner_command) w
  ]
