-- ===== src/Registry/Manifest.antt =====
-- The dictionaries that `get_permitted_tools` returns, of interfaces/registry.py.
use compliance_framework.Prelude.{String, List, ◌≡◌, In, Some}

pub record Manifest : Type 0 where
  pub tool_name : String
  pub functions : List String

-- A manifest of the list shows the function of the tool.
abbrev pub Offers : String → String → List Manifest → Type 0
Offers tool function manifests =
    Some (λ m. (m.tool_name ≡ tool) × In function m.functions) manifests
