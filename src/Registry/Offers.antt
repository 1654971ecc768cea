-- ===== src/Registry/Offers.antt =====
-- What the registries show, exactly.
use compliance_framework.Prelude.{
  String, true, ◌≡◌, ◌↔◌, inl, inr, some, member_iff, In, Some, lookup, List, [], ◌∷◌, arith,
  Bool-cases, Option-cases, ◌⊎◌, subst,
}
use compliance_framework.Models.{ExecutionContext}
use compliance_framework.Policy.Rules.{ToolRule, PolicyRuleSet}
use compliance_framework.Policy.Checks.Laws.{has_one_of_iff}
use compliance_framework.Policy.StaticEngine.Exact.{IsVisible, is_visible_iff}
use compliance_framework.Policy.DbRules.{
  Db, active_roles, tool_names, visibility_roles, allowed_functions,
}
use compliance_framework.Policy.DbRules.Queries.{
  tool_exists_iff, Allows, allowed_functions_iff, IsActive, active_roles_iff,
}
use compliance_framework.Registry.Manifest.{Offers}
use compliance_framework.Registry.StaticRegistry
use compliance_framework.Registry.DbRegistry

-- The rules let the context see the function of the tool.
pub record StaticShows (rules : PolicyRuleSet) (context : ExecutionContext) (tool function : String)
    (rule : ToolRule) : Type 0 where
  pub listed : In tool rules.allowed_tools
  pub ruled : lookup tool rules.tools ≡ some rule
  pub visible : IsVisible context.roles rule.visible_to_roles
  pub allowed : In function rule.allowed_functions

-- The store lets the context see the function of the tool.
pub record DbShows (store : Db) (context : ExecutionContext) (tool function : String) : Type 0 where
  pub active : Some (IsActive context.roles) store.roles
  pub listed : In tool store.tools
  pub visible : IsVisible context.roles (visibility_roles store tool)
  pub allowed : Some (Allows tool function) store.tool_functions

static-IsVisible :
    (rules : PolicyRuleSet) (context : ExecutionContext) (tool : String) (rule : ToolRule)
    → lookup tool rules.tools ≡ some rule
    → (StaticRegistry.is_tool_visible rules context tool ≡ true)
      ↔ (In tool rules.allowed_tools × IsVisible context.roles rule.visible_to_roles)
unfolding StaticRegistry.is_tool_visible
static-IsVisible rules context tool rule e = rw e (
    ground (
      arith,
      member_iff tool rules.allowed_tools,
      is_visible_iff context.roles rule.visible_to_roles,
    ))

module _ (rules : PolicyRuleSet) (context : ExecutionContext) (tool function : String) where
  permitted-shows :
      (tools : List String)
      → Offers tool function (StaticRegistry.permitted rules context tools)
      → (rule : ToolRule) × StaticShows rules context tool function rule
  unfolding StaticRegistry.permitted
  permitted-shows [] h = absurd h
  permitted-shows (t ∷ ts) h = elim (Option-cases (lookup t rules.tools)) [
    | inl missing ↦ permitted-shows ts (ground arith)
    | inr (rule, found) ↦ elim (Bool-cases (StaticRegistry.is_tool_visible rules context t)) [
      | inl seen ↦
          let shown = (static-IsVisible rules context t rule found).0 seen in
          here rule found shown (permitted-shows ts) (ground arith)
      | inr hidden ↦ permitted-shows ts (ground arith)
    ]
  ]
    where
      here :
          (rule : ToolRule)
          → lookup t rules.tools ≡ some rule
          → In t rules.allowed_tools × IsVisible context.roles rule.visible_to_roles
          → (Offers tool function (StaticRegistry.permitted rules context ts)
              → (r : ToolRule) × StaticShows rules context tool function r)
          → ((t ≡ tool) × In function rule.allowed_functions)
            ⊎ Offers tool function (StaticRegistry.permitted rules context ts)
          → (r : ToolRule) × StaticShows rules context tool function r
      here rule found shown later (inl (same, allowed)) = (
        rule,
        record {
          listed = subst (λ x. In x rules.allowed_tools) same shown.0;
          ruled = subst (λ x. lookup x rules.tools ≡ some rule) same found;
          visible = shown.1;
          allowed = allowed;
        },
      )
      here rule found shown later (inr h) = later h

  shows-permitted :
      (tools : List String) (rule : ToolRule)
      → StaticShows rules context tool function rule
      → In tool tools
      → Offers tool function (StaticRegistry.permitted rules context tools)
  unfolding StaticRegistry.permitted
  shows-permitted [] rule s i = absurd i
  shows-permitted (t ∷ ts) rule s (inl e) =
      let seen = (static-IsVisible rules context tool rule s.ruled).1 (s.listed, s.visible) in
      rw e (ground (arith, seen, s.ruled, s.allowed))
  shows-permitted (t ∷ ts) rule s (inr later) = ground (arith, shows-permitted ts rule s later)

  -- The static registry shows a function of a tool to a context exactly when the tool is listed and
  -- has a rule, the context may see the tool, and the rule allows the function.
  pub static-Offers_iff :
      Offers tool function (StaticRegistry.get_permitted_tools rules context)
      ↔ ((rule : ToolRule) × StaticShows rules context tool function rule)
  unfolding StaticRegistry.get_permitted_tools
  static-Offers_iff = (
    permitted-shows rules.allowed_tools,
    λ (rule, s). shows-permitted rules.allowed_tools rule s s.listed,
  )

module _ (store : Db) (context : ExecutionContext) where
  db-IsVisible :
      (tool : String)
      → (DbRegistry.is_tool_visible store context tool ≡ true) ↔ (
          Some (IsActive context.roles) store.roles
          × In tool store.tools
          × IsVisible context.roles (visibility_roles store tool))
  unfolding DbRegistry.is_tool_visible
  db-IsVisible tool = ground (
    arith,
    has_one_of_iff context.roles (active_roles store),
    active_roles_iff store context.roles,
    tool_exists_iff store tool,
    is_visible_iff context.roles (visibility_roles store tool),
  )

  module _ (tool function : String) where
    db_permitted_iff :
        (tools : List String)
        → Offers tool function (DbRegistry.permitted store context tools) ↔ (
            In tool tools
            × (DbRegistry.is_tool_visible store context tool ≡ true)
            × In function (allowed_functions store tool))
    unfolding DbRegistry.permitted
    db_permitted_iff [] = ground arith
    db_permitted_iff (t ∷ ts) = grind (arith, db_permitted_iff ts)

    pub db-Offers_iff :
        Offers tool function (DbRegistry.get_permitted_tools store context)
        ↔ DbShows store context tool function
    unfolding DbRegistry.get_permitted_tools tool_names
    db-Offers_iff =
        let shown = db_permitted_iff store.tools in
        let visible = db-IsVisible tool in
        let functions = allowed_functions_iff store tool function in
        (
          λ h.
              let (listed, seen, allowed) = shown.0 h in
              let (active, known, open_to) = visible.0 seen in
              record {
                active = active;
                listed = listed;
                visible = open_to;
                allowed = functions.0 allowed;
              },
          λ s. shown.1 (s.listed, visible.1 (s.active, s.listed, s.visible), functions.1 s.allowed),
        )
