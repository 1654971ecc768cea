-- ===== src/Registry/Agreement.antt =====
-- The registries and the engines read the same rules: what an engine allows, the registry shows.
use compliance_framework.Prelude.{String, true, ◌≡◌, Some-map, List, Result, ok, ℤ}
use compliance_framework.Models.{ExecutionContext, ToolRequest, PolicyDecision}
use compliance_framework.Runtime.{Runtime}
use compliance_framework.Policy.Rules.{PolicyRuleSet}
use compliance_framework.Policy.DbRules.{Db}
use compliance_framework.Policy.StaticEngine
use compliance_framework.Policy.StaticEngine.Exact.{evaluate_allows_iff}
use compliance_framework.Policy.StaticEngine.Roles.{Within, IsVisible-mono}
use compliance_framework.Policy.DbEngine
use compliance_framework.Policy.DbEngine.Gated.{IsVisible-iff}
use compliance_framework.Policy.DbEngine.Exact.{db_evaluate_allows_iff}
use compliance_framework.Registry.Manifest.{Offers}
use compliance_framework.Registry.StaticRegistry
use compliance_framework.Registry.DbRegistry
use compliance_framework.Registry.Offers.{static-Offers_iff, db-Offers_iff}

module _ (py : Runtime) (counter : String → Result ℤ) (context : ExecutionContext)
    (request : ToolRequest) (d : PolicyDecision) where
  -- A function that the static engine allows is one that the static registry shows.
  pub static_allowed-offered :
      (rules : PolicyRuleSet)
      → StaticEngine.evaluate py rules counter context request ≡ ok d
      → d.allowed ≡ true
      → Offers request.tool_name request.function_name
          (StaticRegistry.get_permitted_tools rules context)
  static_allowed-offered rules e a =
      let (rule, _, p, _) = (evaluate_allows_iff py rules counter context request d).0 (e, a) in
      (static-Offers_iff rules context request.tool_name request.function_name).1 (
        rule,
        record { listed = p.listed; ruled = p.ruled; visible = p.visible; allowed = p.function },
      )

  -- A function that the database-backed engine allows is one that the registry over the same store
  -- shows.
  pub db_allowed-offered :
      (store : Db)
      → DbEngine.evaluate py store counter context request ≡ ok d
      → d.allowed ≡ true
      → Offers request.tool_name request.function_name
          (DbRegistry.get_permitted_tools store context)
  db_allowed-offered store e a =
      let (_, _, p, _) = (db_evaluate_allows_iff py store counter context request d).0 (e, a) in
      (db-Offers_iff store context request.tool_name request.function_name).1 (record {
        active = p.active;
        listed = p.listed;
        visible = (IsVisible-iff store context.roles request.tool_name).1 p.visible;
        allowed = p.function;
      })

module _ (context : ExecutionContext) (more : List String) (w : Within context.roles more)
    (tool function : String) where
  -- Least agency: what the database-backed registry shows to a context it also shows to the context
  -- with more roles, so fewer roles see no more.
  pub db-Offers-roles_mono :
      (store : Db)
      → Offers tool function (DbRegistry.get_permitted_tools store context)
      → Offers tool function
          (DbRegistry.get_permitted_tools store (record context { roles = more }))
  db-Offers-roles_mono store h =
      let s = (db-Offers_iff store context tool function).0 h in
      (db-Offers_iff store (record context { roles = more }) tool function).1 (record {
        active = Some-map (λ row a. (a.0, w row.role_name a.1)) _ s.active;
        listed = s.listed;
        visible = IsVisible-mono context.roles more _ w s.visible;
        allowed = s.allowed;
      })
