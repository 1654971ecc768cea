-- ===== src/Registry/StaticRegistry.antt =====
-- registry/static_registry.py
use compliance_framework.Prelude.{
  String, Bool, false, none, some, member, lookup, List, [], ◌∷◌, if◌then◌else◌,
}
use compliance_framework.Models.{ExecutionContext}
use compliance_framework.Policy.Rules.{PolicyRuleSet}
use compliance_framework.Policy.StaticEngine.{is_visible}
use compliance_framework.Registry.Manifest.{Manifest}

module _ (rules : PolicyRuleSet) (context : ExecutionContext) where
  -- `_is_tool_visible`
  unfoldable pub is_tool_visible : String → Bool
  is_tool_visible tool =
      if member tool rules.allowed_tools
      then (elim (lookup tool rules.tools) [
        | none ↦ false
        | some rule ↦ is_visible context.roles rule.visible_to_roles
      ])
      else false

  -- the loop of `get_permitted_tools`
  unfoldable pub permitted : List String → List Manifest
  permitted [] = []
  permitted (tool ∷ tools) =
      let rest = permitted tools in
      elim (lookup tool rules.tools) [
        | none ↦ rest
        | some rule ↦
            if is_tool_visible tool
            then record { tool_name = tool; functions = rule.allowed_functions } ∷ rest
            else rest
      ]

  unfoldable pub get_permitted_tools : List Manifest
  get_permitted_tools = permitted rules.allowed_tools
