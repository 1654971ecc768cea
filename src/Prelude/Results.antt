-- ===== src/Prelude/Results.antt =====
-- Python's exceptions as values, and actions that change a state and may raise.
use Prim.Native.String.{String}
use Prim.Native.Nat.{ℕ}
use mathlib.Core.Option.{Option, none, some}
use mathlib.Core.Path.{◌≡◌, refl}
use mathlib.Core.Bool.{Bool, true, false}
use mathlib.Core.Logic.{◌⊎◌, inl, inr}

-- The classes of exception that the program tells apart. `cancelled` stands for those that are no
-- subclass of `Exception`, such as `asyncio.CancelledError`, which `except Exception` lets pass.
pub data Kind : Type 0 where
  timeout_error policy_evaluation_error value_error file_not_found_error : Kind
  guardrail_violation gateway_auth_error other_error cancelled : Kind

pub record Exn : Type 0 where
  pub kind : Kind
  pub message : String

abbrev pub is_timeout : Exn → Bool
is_timeout e = elim e.kind [ timeout_error ↦ true | _ ↦ false ]

-- `except Exception`
abbrev pub is_exception : Exn → Bool
is_exception e = elim e.kind [ cancelled ↦ false | _ ↦ true ]

pub data Result {ℓ} (A : Type ℓ) : Type ℓ where
  ok : A → Result A
  raise : Exn → Result A

infixl 5 ◌>>=◌
abbrev pub ◌>>=◌ {ℓ κ} : {A : Type ℓ} {B : Type κ} → Result A → (A → Result B) → Result B
ok a >>= f = f a
raise e >>= f = raise e

-- What was written before a raise stays written, so the state comes back beside the exception too.
abbrev pub Exec {ℓ κ} : Type ℓ → Type κ → Type (ℓ ⊔ κ)
Exec S A = S → Result A × S

-- A coroutine under a time limit in milliseconds: `none` if it is not done when the time is over.
abbrev pub Task : Type 0 → Type 0 → Type 0
Task W A = ℕ → W → Option (Result A) × W

abbrev pub or_timeout {ℓ} : {A : Type ℓ} → Option (Result A) → Result A
or_timeout none = raise (record { kind = Kind.timeout_error; message = "" })
or_timeout (some r) = r

-- `asyncio.wait_for`
abbrev pub wait_for : {W A : Type 0} → ℕ → Task W A → Exec W A
wait_for limit task w = let (r, w') = task limit w in (or_timeout r, w')

pub Result-cases {ℓ} :
    {A : Type ℓ} (r : Result A) → ((a : A) × (r ≡ ok a)) ⊎ ((e : Exn) × (r ≡ raise e))
Result-cases (ok a) = inl (a, refl)
Result-cases (raise e) = inr (e, refl)
