-- ===== src/Policy/Checks/Laws.antt =====
-- When each check passes, against a description that does not speak of the code's loops.
use compliance_framework.Prelude.{
  String, Bool, true, false, ◌≡◌, refl, subst, ◌&&◌, not, ◌↔◌, inl, inr, Option, none, some, eq_iff,
  member, member_iff, In, any_iff, All, Some, Bool-cases, lookup, List, [], ◌∷◌, Dict, Result, ok,
  raise, ℤ, ◌≤ℤ◌, leb_ℤ_iff, arith,
}
use compliance_framework.Models.{Value, not_none, str_value, ExecutionContext, PolicyDecision}
use compliance_framework.Runtime.{Runtime}
use compliance_framework.Policy.Gates.{partition}
use compliance_framework.Policy.Checks.{
  Check, pass, deny, fail, ◌>>=◌, ◌>>◌, lift, require, settle, attribute, check_identity,
  has_one_of, check_patterns, check_parameter, check_parameters, has_text, gate_applies,
  check_gates, check_rate, approve, wrap,
}

pub >>=-eq-pass {ℓ κ} :
    {A : Type ℓ} {B : Type κ} (m : Check A) (f : A → Check B) {b : B}
    → (m >>= f) ≡ pass b
    → (a : A) × (m ≡ pass a) × (f a ≡ pass b)
>>=-eq-pass (pass a) f h = (a, refl, h)
>>=-eq-pass (deny r) f h = cc
>>=-eq-pass (fail e) f h = cc

pub >>-eq-pass {κ} :
    {B : Type κ} (m : Check (Unit {0})) (k : Check B) {b : B}
    → (m >> k) ≡ pass b
    → (m ≡ pass tt) × (k ≡ pass b)
>>-eq-pass (pass tt) k h = (refl, h)
>>-eq-pass (deny r) k h = cc
>>-eq-pass (fail e) k h = cc

pub require-eq-pass_iff : (b : Bool) (r : String) → (require b r ≡ pass tt) ↔ (b ≡ true)
require-eq-pass_iff b r = ground arith

pub lift-eq-pass : (r : Result ℤ) {a : ℤ} → lift r ≡ pass a → r ≡ ok a
lift-eq-pass (ok a) h = ground arith
lift-eq-pass (raise e) h = cc

-- One of the required roles is a role of the context.
abbrev pub HasOneOf : List String → List String → Type 0
HasOneOf roles required = Some (λ role. In role roles) required

pub has_one_of_iff :
    (roles required : List String) → (has_one_of roles required ≡ true) ↔ HasOneOf roles required
unfolding has_one_of
has_one_of_iff roles =
    any_iff (λ role. In role roles) (λ role. member role roles) (λ role. member_iff role roles)

abbrev pub HasIdentity : Runtime → ExecutionContext → List String → Type 0
HasIdentity py context names = All (λ name. attribute py context name ≡ true) names

pub check_identity-eq-pass_iff :
    (py : Runtime) (context : ExecutionContext) (names : List String)
    → (check_identity py context names ≡ pass tt) ↔ HasIdentity py context names
unfolding check_identity
check_identity-eq-pass_iff py context [] = ground arith
check_identity-eq-pass_iff py context (name ∷ names) =
    ground (arith, check_identity-eq-pass_iff py context names)

-- No pattern is found in the text, and each of them compiles.
abbrev pub NoMatch : Runtime → String → List String → Type 0
NoMatch py value patterns = All (λ pattern. py.search pattern value ≡ ok false) patterns

pub check_patterns-eq-pass_iff :
    (py : Runtime) (name value : String) (patterns : List String)
    → (check_patterns py name value patterns ≡ pass tt) ↔ NoMatch py value patterns
unfolding check_patterns
check_patterns-eq-pass_iff py name value [] = ground arith
check_patterns-eq-pass_iff py name value (p ∷ ps) =
    ground (arith, check_patterns-eq-pass_iff py name value ps)

-- The parameter, if the request gives it, matches none of its deny-patterns.
abbrev pub IsClean : Runtime → Dict Value → String × List String → Type 0
IsClean py given entry =
    (v : Value)
    → not_none (lookup entry.0 given) ≡ some v
    → NoMatch py (str_value py.repr v) entry.1

check_parameter-eq-pass_iff :
    (py : Runtime) (name : String) (patterns : List String) (o : Option Value)
    → (check_parameter py name patterns o ≡ pass tt)
      ↔ ((v : Value) → o ≡ some v → NoMatch py (str_value py.repr v) patterns)
unfolding check_parameter
check_parameter-eq-pass_iff py name patterns none = (λ h v e. cc, λ h. refl)
check_parameter-eq-pass_iff py name patterns (some w) =
    let same = check_patterns-eq-pass_iff py name (str_value py.repr w) patterns in
    (
      λ h v e.
          let same_value : w ≡ v = cc in
          subst (λ u. NoMatch py (str_value py.repr u) patterns) same_value (same.0 h),
      λ h. same.1 (h w refl),
    )

pub check_parameters-eq-pass_iff :
    (py : Runtime) (given : Dict Value) (denied : Dict (List String))
    → (check_parameters py given denied ≡ pass tt) ↔ All (IsClean py given) denied
unfolding check_parameters
check_parameters-eq-pass_iff py given [] = ground arith
check_parameters-eq-pass_iff py given ((name, patterns) ∷ more) =
    let one = check_parameter-eq-pass_iff py name patterns (not_none (lookup name given)) in
    let ih = check_parameters-eq-pass_iff py given more in
    (
      λ h. let (first, later) = >>-eq-pass _ _ h in (one.0 first, ih.0 later),
      λ h. rw (one.1 h.0) (ih.1 h.1),
    )

-- If the request gives the gated value, the context has one of the roles that the gate requires.
abbrev pub IsOpen : Runtime → List String → Dict Value → String × List String → Type 0
IsOpen py roles given entry =
    (v : Value)
    → not_none (lookup (partition entry.0).0 given) ≡ some v
    → str_value py.repr v ≡ (partition entry.0).1
    → HasOneOf roles entry.1

has_text-eq-true :
    (py : Runtime) (t : String) (o : Option Value) (v : Value)
    → o ≡ some v
    → str_value py.repr v ≡ t
    → has_text py t o ≡ true
unfolding has_text
has_text-eq-true py t o v found same = ground (arith, eq_iff (str_value py.repr v) t)

has_text-value :
    (py : Runtime) (t : String) (o : Option Value)
    → has_text py t o ≡ true
    → (v : Value) × (o ≡ some v) × (str_value py.repr v ≡ t)
unfolding has_text
has_text-value py t none h = cc
has_text-value py t (some v) h = (v, refl, (eq_iff _ _).0 h)

gate-IsOpen_iff :
    (py : Runtime) (roles : List String) (given : Dict Value) (entry : String × List String)
    → ((gate_applies py given entry.0 && not (has_one_of roles entry.1)) ≡ false)
      ↔ IsOpen py roles given entry
unfolding gate_applies
gate-IsOpen_iff py roles given (gate, required) =
    let o = not_none (lookup (partition gate).0 given) in
    let t = (partition gate).1 in
    (
      λ h v found same.
          (has_one_of_iff roles required).0 (ground (arith, has_text-eq-true py t o v found same)),
      λ h. elim (Bool-cases (has_text py t o)) [
        | inl applies ↦
            let (v, found, same) = has_text-value py t o applies in
            rw (applies, (has_one_of_iff roles required).1 (h v found same))
        | inr idle ↦ rw idle
      ],
    )

pub check_gates-eq-pass_iff :
    (py : Runtime) (roles : List String) (given : Dict Value) (gates : Dict (List String))
    → (check_gates py roles given gates ≡ pass tt) ↔ All (IsOpen py roles given) gates
unfolding check_gates
check_gates-eq-pass_iff py roles given [] = ground arith
check_gates-eq-pass_iff py roles given ((gate, required) ∷ more) =
    let one = gate-IsOpen_iff py roles given (gate, required) in
    let ih = check_gates-eq-pass_iff py roles given more in
    (λ h. (one.0 (ground arith), ih.0 (ground arith)), λ h. rw (one.1 h.0) (ih.1 h.1))

pub check_rate-eq-pass_iff :
    (calls limit : ℤ) → (check_rate calls limit ≡ pass tt) ↔ (¬ (limit ≤ℤ calls))
unfolding check_rate
check_rate-eq-pass_iff calls limit = ground (arith, leb_ℤ_iff limit calls)

-- An engine answers with an approval exactly when all its checks pass with one.
pub wrap-settle_iff :
    (m : Check PolicyDecision) (d : PolicyDecision)
    → ((wrap (settle m) ≡ ok d) × (d.allowed ≡ true)) ↔ ((m ≡ pass d) × (d.allowed ≡ true))
unfolding wrap
wrap-settle_iff (pass a) d = ground arith
wrap-settle_iff (deny r) d = ground arith
wrap-settle_iff (fail e) d = ground arith

pub allowed-approve : (b : Bool) → (approve b).allowed ≡ true
unfolding approve
allowed-approve true = refl
allowed-approve false = refl
