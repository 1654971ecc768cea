-- ===== src/Policy/Tests.antt =====
-- The engines on the example configuration.
use compliance_framework.Prelude.{
  String, true, ◌≡◌, refl, ◌↔◌, inl, inr, [], ◌∷◌, ok, ℤ, List, lookup, member,
}
use compliance_framework.Models.{PolicyDecision, str_value}
use compliance_framework.Fixture.{runtime, engineer, deploy, no_calls}
use compliance_framework.Policy.Gates.{partition}
use compliance_framework.Policy.Checks.{
  approve, attribute, check_identity, has_one_of, check_patterns, check_parameter, check_parameters,
  has_text, gate_applies, check_gates, check_rate, wrap,
}
use compliance_framework.Policy.DbRules.{empty, seed_example, active_roles}
use compliance_framework.Policy.Example.{example_rules}
use compliance_framework.Policy.StaticEngine
use compliance_framework.Policy.StaticEngine.{check_tool, is_visible}
use compliance_framework.Policy.StaticEngine.Exact as StaticExact
use compliance_framework.Policy.StaticEngine.Exact.{evaluate_allows_iff}
use compliance_framework.Policy.StaticEngine.Roles.{evaluate-roles_mono}
use compliance_framework.Policy.DbEngine
use compliance_framework.Policy.DbEngine.Exact as DbExact
use compliance_framework.Policy.DbEngine.Exact.{db_evaluate_allows_iff}
use compliance_framework.Policy.Parity.{Mirrors, evaluate-mirrors}
use compliance_framework.Policy.Seeded.{seed_example-Mirrors}

-- What both engines answer: the deployment is allowed once a human agrees.
abbrev pending : PolicyDecision
unfolding approve
pending = approve true

deploy_pending : StaticEngine.evaluate runtime example_rules no_calls engineer deploy ≡ ok pending
unfolding StaticEngine.evaluate StaticEngine.checks check_tool is_visible approve attribute
    check_identity has_one_of check_patterns check_parameter check_parameters has_text gate_applies
    check_gates check_rate wrap partition lookup member str_value
deploy_pending = refl

evaluate_allows_iff_example :
    ((StaticEngine.evaluate runtime example_rules no_calls engineer deploy ≡ ok pending)
      × (pending.allowed ≡ true))
    ↔ ((rule : _) × (calls : ℤ) × StaticExact.Permits runtime example_rules no_calls engineer deploy
          rule calls
        × (pending ≡ StaticExact.decision_for runtime example_rules no_calls rule deploy))
evaluate_allows_iff_example =
    evaluate_allows_iff runtime example_rules no_calls engineer deploy pending

db_evaluate_allows_iff_example :
    ((DbEngine.evaluate runtime (seed_example empty) no_calls engineer deploy ≡ ok pending)
      × (pending.allowed ≡ true))
    ↔ ((calls : ℤ) × (limit : ℤ) × DbExact.Permits runtime
          (seed_example empty)
          no_calls
          engineer
          deploy
          calls
          limit
        × (pending ≡ DbExact.decision_for runtime (seed_example empty) no_calls deploy))
db_evaluate_allows_iff_example =
    db_evaluate_allows_iff runtime (seed_example empty) no_calls engineer deploy pending

seed_example-Mirrors_example : Mirrors runtime (seed_example empty) example_rules
seed_example-Mirrors_example = seed_example-Mirrors empty runtime refl

engineer_active : has_one_of engineer.roles (active_roles (seed_example empty)) ≡ true
unfolding has_one_of active_roles seed_example member
engineer_active = refl

evaluate-mirrors_example :
    DbEngine.evaluate runtime (seed_example empty) no_calls engineer deploy
    ≡ StaticEngine.evaluate runtime example_rules no_calls engineer deploy
evaluate-mirrors_example =
    evaluate-mirrors runtime (seed_example empty) example_rules no_calls engineer deploy
      (seed_example-Mirrors empty runtime refl) engineer_active

abbrev promoted : List String
promoted = "DeployEngineer" ∷ "ProductionAdmin" ∷ []

evaluate-roles_mono_example :
    StaticEngine.evaluate runtime example_rules no_calls
      (record engineer { roles = promoted })
      deploy
    ≡ ok pending
unfolding approve
evaluate-roles_mono_example =
    evaluate-roles_mono runtime engineer promoted
      (λ role i. elim i [ inl e ↦ inl e | inr other ↦ absurd other ]) example_rules no_calls deploy
      pending deploy_pending refl
