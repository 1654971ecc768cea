-- ===== src/Identity/StaticBearer.antt =====
-- identity/static_bearer.py
use compliance_framework.Prelude.{String, Bool, true, member, truthy, List, if◌then◌else◌}
use compliance_framework.Models.{ExecutionContext}

-- `verify`, for the set of tokens as a list
unfoldable pub verify : List String → String → ExecutionContext → Bool
verify valid_tokens credential context =
    if truthy valid_tokens then member credential valid_tokens else true
