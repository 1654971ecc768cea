-- ===== src/Registry/Tests.antt =====
-- The registries on the example configuration.
use compliance_framework.Prelude.{String, true, ◌≡◌, refl, [], ◌∷◌, List, ok, lookup, member}
use compliance_framework.Fixture.{runtime, engineer, deploy, no_calls}
use compliance_framework.Models.{PolicyDecision, str_value}
use compliance_framework.Policy.Gates.{partition}
use compliance_framework.Policy.Checks.{
  approve, attribute, check_identity, has_one_of, check_patterns, check_parameter, check_parameters,
  has_text, gate_applies, check_gates, check_rate, wrap,
}
use compliance_framework.Policy.StaticEngine
use compliance_framework.Policy.StaticEngine.{check_tool, is_visible}
use compliance_framework.Policy.DbEngine
use compliance_framework.Policy.DbRules.{
  empty, seed_example, active_roles, tool_exists, visibility_roles, allowed_functions,
  requires_approval, deny_patterns, role_gates, group, append_at, rate_limit_per_session,
}
use compliance_framework.Policy.Example.{example_rules}
use compliance_framework.Registry.Manifest.{Offers}
use compliance_framework.Registry.DbRegistry
use compliance_framework.Registry.Agreement.{db_allowed-offered}

abbrev pending : PolicyDecision
unfolding approve
pending = approve true

static_allows : StaticEngine.evaluate runtime example_rules no_calls engineer deploy ≡ ok pending
unfolding StaticEngine.evaluate StaticEngine.checks check_tool is_visible approve attribute
    check_identity has_one_of check_patterns check_parameter check_parameters has_text gate_applies
    check_gates check_rate wrap partition lookup member str_value
static_allows = refl

db_allows : DbEngine.evaluate runtime (seed_example empty) no_calls engineer deploy ≡ ok pending
unfolding DbEngine.evaluate DbEngine.checks seed_example active_roles tool_exists visibility_roles
    allowed_functions requires_approval deny_patterns role_gates group append_at
    rate_limit_per_session is_visible approve attribute check_identity has_one_of check_patterns
    check_parameter check_parameters has_text gate_applies check_gates check_rate wrap partition
    lookup member str_value
db_allows = refl

db_allowed-offered_example :
    Offers "deploy_tool" "deploy" (DbRegistry.get_permitted_tools (seed_example empty) engineer)
unfolding approve
db_allowed-offered_example =
    db_allowed-offered runtime no_calls engineer deploy pending (seed_example empty) db_allows refl

abbrev promoted : List String
promoted = "DeployEngineer" ∷ "ProductionAdmin" ∷ []
