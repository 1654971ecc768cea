-- ===== src/Policy/StaticEngine/Roles.antt =====
-- More roles never turn an approval of the static engine into a denial.
use compliance_framework.Prelude.{
  String, true, ◌≡◌, refl, inl, inr, In, All-map, Some-map, List, [], ◌∷◌, Result, ok, ℤ, arith,
  truthy,
}
use compliance_framework.Models.{ExecutionContext, ToolRequest, PolicyDecision}
use compliance_framework.Runtime.{Runtime}
use compliance_framework.Policy.Rules.{PolicyRuleSet}
use compliance_framework.Policy.Checks.{attribute}
use compliance_framework.Policy.Checks.Laws.{HasOneOf}
use compliance_framework.Policy.StaticEngine.{evaluate}
use compliance_framework.Policy.StaticEngine.Exact.{IsVisible, evaluate_allows_iff}

-- Each role of the first list is in the second.
abbrev pub Within : List String → List String → Type 0
Within roles more = (role : String) → In role roles → In role more

pub HasOneOf-mono :
    (roles more required : List String)
    → Within roles more
    → HasOneOf roles required
    → HasOneOf more required
HasOneOf-mono roles more required w = Some-map w required

pub IsVisible-mono :
    (roles more visible : List String)
    → Within roles more
    → IsVisible roles visible
    → IsVisible more visible
IsVisible-mono roles more visible w (inl e) = inl e
IsVisible-mono roles more visible w (inr h) = inr (HasOneOf-mono roles more visible w h)

truthy_mono :
    (roles more : List String) → Within roles more → truthy roles ≡ true → truthy more ≡ true
truthy_mono [] more w h = cc
truthy_mono (r ∷ rs) [] w h = absurd (w r (inl refl))
truthy_mono (r ∷ rs) (m ∷ ms) w h = refl

module _ (py : Runtime) (context : ExecutionContext) (more : List String)
    (w : Within context.roles more) where
  abbrev widened : ExecutionContext
  widened = record context { roles = more }

  attribute_mono :
      (name : String) → attribute py context name ≡ true → attribute py widened name ≡ true
  unfolding attribute
  attribute_mono name h = ground (arith, truthy_mono context.roles more w)

  module _ (rules : PolicyRuleSet) (counter : String → Result ℤ) where
    -- A call that the engine allows stays allowed, with the same decision, when the context is given
    -- more roles.
    pub evaluate-roles_mono :
        (request : ToolRequest) (d : PolicyDecision)
        → evaluate py rules counter context request ≡ ok d
        → d.allowed ≡ true
        → evaluate py rules counter (record context { roles = more }) request ≡ ok d
    evaluate-roles_mono request d e a =
        let (rule, calls, p, same) =
          (evaluate_allows_iff py rules counter context request d).0 (e, a) in
        ((evaluate_allows_iff py rules counter widened request d).1 (
          rule,
          calls,
          record {
            identity = All-map attribute_mono _ p.identity;
            listed = p.listed;
            ruled = p.ruled;
            visible = IsVisible-mono context.roles more _ w p.visible;
            function = p.function;
            clean = p.clean;
            gated =
                All-map
                  (λ entry open_to v found text.
                    HasOneOf-mono context.roles more entry.1 w (open_to v found text))
                  _ p.gated;
            counted = p.counted;
            below = p.below;
          },
          same,
        )).0
