-- ===== src/Registry/DbRegistry.antt =====
-- registry/db_registry.py
use compliance_framework.Prelude.{String, Bool, ◌&&◌, List, [], ◌∷◌, if◌then◌else◌}
use compliance_framework.Models.{ExecutionContext}
use compliance_framework.Policy.Checks.{has_one_of}
use compliance_framework.Policy.StaticEngine.{is_visible}
use compliance_framework.Policy.DbRules.{
  Db, active_roles, tool_exists, tool_names, visibility_roles, allowed_functions,
}
use compliance_framework.Registry.Manifest.{Manifest}

module _ (store : Db) (context : ExecutionContext) where
  -- `_is_tool_visible`
  unfoldable pub is_tool_visible : String → Bool
  is_tool_visible tool =
      has_one_of context.roles (active_roles store)
      && tool_exists store tool
      && is_visible context.roles (visibility_roles store tool)

  -- the loop of `get_permitted_tools`
  unfoldable pub permitted : List String → List Manifest
  permitted [] = []
  permitted (tool ∷ tools) =
      let rest = permitted tools in
      if is_tool_visible tool
      then record { tool_name = tool; functions = allowed_functions store tool } ∷ rest
      else rest

  unfoldable pub get_permitted_tools : List Manifest
  get_permitted_tools = permitted (tool_names store)
