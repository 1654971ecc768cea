-- ===== src/Guardrails/RegexPii.antt =====
-- guardrails/regex_pii.py
use compliance_framework.Prelude.{
  String, ◌<>◌, Bool, ◌&&◌, truthy, Kind, Result, ok, raise, if◌then◌else◌,
}
use compliance_framework.Models.{ExecutionContext, repr_texts}
use compliance_framework.Runtime.{Runtime}
use compliance_framework.Guardrails.Patterns.{mask, find_injection_markers}

module _ (py : Runtime) (block_on_injection : Bool) where
  unfoldable pub inspect_input : String → ExecutionContext → Result String
  inspect_input prompt context =
      let markers = find_injection_markers py prompt in
      if truthy markers && block_on_injection
      then raise (record {
        kind = Kind.guardrail_violation;
        message =
            "input rejected: prompt-injection markers detected "
            <> repr_texts py.repr markers
            <> " (session="
            <> context.session_id
            <> ")";
      })
      else ok (mask py prompt)

  unfoldable pub inspect_output : String → ExecutionContext → Result String
  inspect_output response context = ok (mask py response)
