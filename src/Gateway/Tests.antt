-- ===== src/Gateway/Tests.antt =====
-- The gateway with one earlier call.
use compliance_framework.Prelude.{◌+◌, ◌≤◌, true, ◌≡◌, ◌↔◌, ◌==◌, [], ◌∷◌, List, ok}
use compliance_framework.Fixture.{runtime, engineer}
use compliance_framework.Guardrails.Patterns.{mask}
use compliance_framework.Gateway.{Shim, call_count, handle_inbound}
use compliance_framework.Gateway.RateLimit.{Inbound, receive_all, counted, inbound_exact}

abbrev shim : Shim
shim = record {
  verifier = λ credential context. ok (credential == "secret");
  rate_limit_per_minute = 2;
  call_counts = [];
}

abbrev earlier : List Inbound
earlier = record { prompt = "hello"; context = engineer; token = "secret" } ∷ []

inbound_exact_example :
    ((handle_inbound runtime "deploy it" engineer "secret" (receive_all runtime earlier shim)).0
      ≡ ok (mask runtime "deploy it"))
    ↔ ((shim.verifier "secret" engineer ≡ ok true)
        × (call_count shim "agent-1" + counted shim.verifier "agent-1" earlier + 1 ≤ 2))
inbound_exact_example = inbound_exact runtime earlier "deploy it" "secret" engineer shim
