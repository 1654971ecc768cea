-- ===== src/Prelude/Texts.antt =====
-- Membership of texts in lists, and the decimal texts of numbers.
use Prim.Native.Nat.{ℕ, zero, suc, ◌/◌, ◌%◌}
use Prim.Native.String.{String, ◌++◌ as ◌<>◌}
use mathlib.Core.Path.{◌≡◌, refl}
use mathlib.Core.Logic.{◌↔◌}
use mathlib.Core.Bool.{Bool, true, false}
use mathlib.Core.List.{List}
use text.Mathlib.Text.{◌==◌}
use text.Mathlib.TextEquality.{eq_iff}
use compliance_framework.Prelude.Tests.{ltb, if◌then◌else◌}
use compliance_framework.Prelude.Lists.{any, any_iff, Some}

-- `x in xs`
unfoldable pub member : String → List String → Bool
member x xs = any (λ y. y == x) xs

abbrev pub In : String → List String → Type 0
In x xs = Some (λ y. y ≡ x) xs

pub member_iff : (x : String) (xs : List String) → (member x xs ≡ true) ↔ In x xs
unfolding member
member_iff x xs = any_iff (λ y. y ≡ x) (λ y. y == x) (λ y. eq_iff y x) xs

-- The truth value of a text.
abbrev pub nonempty : String → Bool
nonempty String.[] = false
nonempty (String.◌∷◌ c s) = true

abbrev pub digit : ℕ → String
digit n =
    if ltb n 1
    then "0"
    else if ltb n 2
    then "1"
    else if ltb n 3
    then "2"
    else if ltb n 4
    then "3"
    else if ltb n 5
    then "4"
    else if ltb n 6
    then "5"
    else if ltb n 7
    then "6"
    else if ltb n 8
    then "7"
    else if ltb n 9
    then "8"
    else "9"

-- The rounds are one more than the number, which has fewer digits than that.
decimal : ℕ → ℕ → String
decimal zero n = ""
decimal (suc f) n =
    let more = decimal f (n / 10) <> digit (n % 10) in if ltb n 10 then digit n else more

-- `str(n)`
unfoldable pub str_nat : ℕ → String
unfolding decimal
str_nat n = decimal (suc n) n

str_nat_test : str_nat 1050 ≡ "1050"
unfolding str_nat
str_nat_test = refl

pub if_closed : (P : String → Type 0) (b : Bool) (x y : String) → P x → P y → P (if b then x else y)
if_closed P true x y p q = p
if_closed P false x y p q = q

decimal_closed :
    (P : String → Type 0)
    → P ""
    → ((n : ℕ) → P (digit n))
    → ((a b : String) → P a → P b → P (a <> b))
    → (f n : ℕ) → P (decimal f n)
unfolding decimal
decimal_closed P nothing one join zero n = nothing
decimal_closed P nothing one join (suc f) n =
    if_closed P (ltb n 10) _ _ (one n)
      (join _ _ (decimal_closed P nothing one join f (n / 10)) (one (n % 10)))

-- What holds of the digits and of texts put together from such texts holds of each decimal.
pub str_nat_closed :
    (P : String → Type 0)
    → P ""
    → ((n : ℕ) → P (digit n))
    → ((a b : String) → P a → P b → P (a <> b))
    → (n : ℕ) → P (str_nat n)
unfolding str_nat
str_nat_closed P nothing one join n = decimal_closed P nothing one join (suc n) n
