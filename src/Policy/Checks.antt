-- ===== src/Policy/Checks.antt =====
-- The checks that policy/static_engine.py and policy/db_engine.py make in the same words: each
-- either passes, returns `_deny(reason)`, or raises.
pub mod Laws
use compliance_framework.Prelude.{
  String, ◌<>◌, Bool, true, false, ◌&&◌, not, Option, none, some, ◌==◌, member, any, truthy,
  nonempty, lookup, List, [], ◌∷◌, Dict, Kind, Exn, Result, ok, raise, ℤ, leb_ℤ, str_int,
  if◌then◌else◌,
}
use compliance_framework.Models.{
  Value, not_none, str_value, repr_texts, ExecutionContext, ToolRequest, PolicyDecision, decide_as,
}
use compliance_framework.Runtime.{Runtime}
use compliance_framework.Policy.Gates.{partition, excerpt}

pub data Check {ℓ} (A : Type ℓ) : Type ℓ where
  pass : A → Check A
  deny : String → Check A
  fail : Exn → Check A

infixl 5 ◌>>=◌ ◌>>◌
abbrev pub ◌>>=◌ {ℓ κ} : {A : Type ℓ} {B : Type κ} → Check A → (A → Check B) → Check B
pass a >>= f = f a
deny r >>= f = deny r
fail e >>= f = fail e

abbrev pub ◌>>◌ {ℓ} : {B : Type ℓ} → Check (Unit {0}) → Check B → Check B
m >> k = m >>= λ _. k

-- A call of a function that may raise.
abbrev pub lift {ℓ} : {A : Type ℓ} → Result A → Check A
lift (ok a) = pass a
lift (raise e) = fail e

abbrev pub require : Bool → String → Check (Unit {0})
require true reason = pass tt
require false reason = deny reason

-- `_evaluate` as its caller sees it, with `_deny` for the decision of a check that denies
abbrev pub settle : Check PolicyDecision → Result PolicyDecision
settle (pass d) = ok d
settle (deny r) = ok (decide_as false r)
settle (fail e) = raise e

module _ (py : Runtime) (context : ExecutionContext) where
  -- The truth value of `getattr(context, name, None)`
  unfoldable pub attribute : String → Bool
  attribute name =
      if name == "user_id"
      then nonempty context.user_id
      else if name == "agent_id"
      then nonempty context.agent_id
      else if name == "session_id"
      then nonempty context.session_id
      else if name == "roles"
      then truthy context.roles
      else if name == "delegated_scopes"
      then truthy context.delegated_scopes
      else if name == "metadata"
      then truthy context.metadata
      else py.inherited name

  unfoldable pub check_identity : List String → Check (Unit {0})
  check_identity [] = pass tt
  check_identity (name ∷ names) =
      let rest = check_identity names in
      if attribute name
      then rest
      else deny ("invalid identity context: missing or empty '" <> name <> "'")

-- `any(role in context.roles for role in required)`
unfoldable pub has_one_of : List String → List String → Bool
unfolding member
has_one_of roles required = any (λ role. member role roles) required

module _ (py : Runtime) where
  -- the loop over the patterns of one parameter
  unfoldable pub check_patterns : String → String → List String → Check (Unit {0})
  check_patterns name value [] = pass tt
  check_patterns name value (pattern ∷ patterns) =
      let rest = check_patterns name value patterns in
      do
        found ← lift (py.search pattern value)
        if found
            then deny (
                "parameter '"
                <> name
                <> "' matched deny-pattern '"
                <> pattern
                <> "' (excerpt: "
                <> py.repr (excerpt value)
                <> ")")
            else rest

  -- one round of the loop over the parameters, from the value that the request gives
  unfoldable pub check_parameter : String → List String → Option Value → Check (Unit {0})
  check_parameter name patterns none = pass tt
  check_parameter name patterns (some value) =
      check_patterns name (str_value py.repr value) patterns

  -- the loop over the parameters that have deny-patterns
  unfoldable pub check_parameters : Dict Value → Dict (List String) → Check (Unit {0})
  check_parameters given [] = pass tt
  check_parameters given ((name, patterns) ∷ more) =
      check_parameter name patterns (not_none (lookup name given)) >> check_parameters given more

  -- `actual_value is not None and str(actual_value) == expected_value`
  unfoldable pub has_text : String → Option Value → Bool
  has_text expected none = false
  has_text expected (some actual) = str_value py.repr actual == expected

  -- whether a gate speaks of the value that the request gives
  unfoldable pub gate_applies : Dict Value → String → Bool
  gate_applies given gate =
      let (name, expected) = partition gate in has_text expected (not_none (lookup name given))

  -- the loop over the role-gated parameter values
  unfoldable pub check_gates : List String → Dict Value → Dict (List String) → Check (Unit {0})
  check_gates roles given [] = pass tt
  check_gates roles given ((gate, required) ∷ more) =
      let rest = check_gates roles given more in
      if gate_applies given gate && not (has_one_of roles required)
      then deny ("parameter '" <> gate <> "' requires one of roles " <> repr_texts py.repr required)
      else rest

unfoldable pub check_rate : ℤ → ℤ → Check (Unit {0})
check_rate calls limit =
    if leb_ℤ limit calls
    then deny ("rate limit exceeded: " <> str_int calls <> " >= " <> str_int limit)
    else pass tt

-- The last two statements of `_evaluate`
unfoldable pub approve : Bool → PolicyDecision
approve true = record (decide_as true "approved pending human-in-the-loop review") {
  action_requirements = "human_approval" ∷ [];
}
approve false = decide_as true "all policy checks passed"

-- `evaluate_tool_call`: an exception other than `PolicyEvaluationError` is wrapped in one.
unfoldable pub wrap : Result PolicyDecision → Result PolicyDecision
wrap (ok d) = ok d
wrap (raise e) = elim e.kind [
  | Kind.cancelled ↦ raise e
  | _ ↦ raise (record { kind = Kind.policy_evaluation_error; message = e.message })
]
