-- ===== src/Fixture.antt =====
-- The runtime, the contexts and the requests on which the tests run the program.
use compliance_framework.Prelude.{
  String, ◌<>◌, false, ◌==◌, [], ◌∷◌, ok, raise, Kind, Result, ℤ, pos, if◌then◌else◌,
}
use compliance_framework.Models.{str, str_value, ExecutionContext, ToolRequest}
use compliance_framework.Runtime.{Regex, Runtime}

-- A pattern that finds one text as a whole.
abbrev pub only : String → Regex
only found = record {
  search = λ text. text == found;
  sub = λ replacement text. if text == found then replacement else text;
}

abbrev pub constant_hash : String
constant_hash = "abababababababababababababababababababababababababababababababab"

abbrev quote : String → String
quote s = "'" <> s <> "'"

abbrev pub runtime : Runtime
runtime = record {
  repr = quote;
  search = λ pattern text. ok (text == "DROP TABLE users");
  int_of = λ text.
      if text == "50"
      then ok (pos 50)
      else raise (record { kind = Kind.other_error; message = "not a number" });
  inherited = λ name. false;
  strip = λ text. text;
  dumps = λ value. str_value quote value;
  sha256 = λ text. constant_hash;
  compile = λ pattern. only "123-45-6789";
  upper = λ text. text;
  lower = λ text. text;
  shlex_join = λ words. "";
  two_digits = λ x. "0.50";
}

abbrev pub engineer : ExecutionContext
engineer = record {
  user_id = "ann";
  agent_id = "agent-1";
  session_id = "session-1";
  roles = "DeployEngineer" ∷ [];
  delegated_scopes = [];
  metadata = [];
}

abbrev pub deploy : ToolRequest
deploy = record {
  tool_name = "deploy_tool";
  function_name = "deploy";
  parameters = ("environment", str "staging") ∷ [];
  call_id = "call-1";
}

-- A counter of calls that finds none.
abbrev pub no_calls : String → Result ℤ
no_calls session = ok (pos 0)
