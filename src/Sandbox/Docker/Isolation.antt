-- ===== src/Sandbox/Docker/Isolation.antt =====
-- Which command lines the container sandbox can start.
use compliance_framework.Prelude.{
  ℕ, String, List, [], ◌∷◌, ◌≡◌, refl, ◌⊎◌, inl, inr, Option, none, some, ◌++◌, lookup, ok, raise,
  arith,
}
use compliance_framework.Models.{
  Value, null, bool, int, float, str, arr, obj, Items, nil, cons, ExecutionContext, ToolRequest,
}
use compliance_framework.Runtime.{Runtime}
use compliance_framework.Sandbox.Docker.{
  Spawn, Hardening, plain, restricted, extra_docker_flags, DockerSandbox, parts, check_command,
  bad_command, build_command, docker_prefix, docker_command, run_container, execute,
}

-- The limits on the rights of a process in a restricted container.
abbrev pub restrictions : Hardening → List String
restrictions plain = []
restrictions restricted =
    "--user" ∷ "65534:65534" ∷ "--read-only" ∷ "--tmpfs" ∷ "/tmp" ∷ "--cap-drop" ∷ "ALL"
    ∷ "--security-opt" ∷ "no-new-privileges" ∷ []

-- The command line of a container without a network, of limited memory and processor time, that is
-- removed after its command.
abbrev pub contained : DockerSandbox → List String → List String
contained sandbox words =
    "docker"
    ∷ "run"
    ∷ "--rm"
    ∷ "--network"
    ∷ "none"
    ∷ "--memory"
    ∷ sandbox.memory_limit
    ∷ "--cpus"
    ∷ sandbox.cpus
    ∷ (restrictions sandbox.hardening ++ sandbox.image ∷ words)

flags-restrictions :
    (hardening : Hardening) (image : String) (words : List String)
    → (extra_docker_flags hardening ++ image ∷ []) ++ words
      ≡ restrictions hardening ++ image ∷ words
unfolding extra_docker_flags
flags-restrictions plain image words = refl
flags-restrictions restricted image words = refl

docker_command-contained :
    (sandbox : DockerSandbox) (words : List String)
    → docker_command sandbox words ≡ contained sandbox words
unfolding docker_command docker_prefix
docker_command-contained sandbox words =
    rw (flags-restrictions sandbox.hardening sandbox.image words) refl

module _ (py : Runtime) where
  -- The request gives a command that is a list of at least one word.
  abbrev pub Commands : ToolRequest → Value → Items → Type 0
  Commands request v vs = lookup "command" request.parameters ≡ some (arr (cons v vs))

  check_command-cases :
      (given : Option Value)
      → ((v : Value) × (vs : Items) × (given ≡ some (arr (cons v vs)))
          × (check_command py given ≡ ok (parts py (cons v vs))))
        ⊎ (check_command py given ≡ raise bad_command)
  unfolding check_command
  check_command-cases (some (arr (cons v vs))) = inl (v, vs, refl, refl)
  check_command-cases (some (arr nil)) = inr refl
  check_command-cases (some null) = inr refl
  check_command-cases (some (bool b)) = inr refl
  check_command-cases (some (int n)) = inr refl
  check_command-cases (some (float t)) = inr refl
  check_command-cases (some (str s)) = inr refl
  check_command-cases (some (obj fs)) = inr refl
  check_command-cases none = inr refl

  module _ {W : Type 0} (clock : W → ℕ) (sandbox : DockerSandbox) (request : ToolRequest)
      (context : ExecutionContext) where
    -- Whatever the request asks for, the only command lines that the sandbox can start are `docker run
    -- --rm --network none --memory` with its limit, `--cpus` with its share, in the restricted class
    -- the user 65534, a read-only file system with a temporary /tmp, no capabilities and no new
    -- privileges, then its image, and only behind it the words of the request's `command`, a list with
    -- at least one: two process starters that agree on these are not told apart.
    pub execute_isolated :
        (spawn spawn' : Spawn W)
        → ((v : Value) (vs : Items) (w : W)
            → Commands request v vs
            → spawn (contained sandbox (parts py (cons v vs))) w
              ≡ spawn' (contained sandbox (parts py (cons v vs))) w)
        → (w : W)
        → execute py clock sandbox spawn request context w
          ≡ execute py clock sandbox spawn' request context w
    unfolding execute build_command run_container
    execute_isolated spawn spawn' agree w =
        elim (check_command-cases (lookup "command" request.parameters)) [
          | inr bad ↦ ground arith
          | inl (v, vs, given, built) ↦
              let same = docker_command-contained sandbox (parts py (cons v vs)) in
              ground (arith, agree v vs w given, same)
        ]
