-- ===== src/Prelude/Ratios.antt =====
-- Quotients of natural numbers, where the program divides floats; compared without rounding.
use Prim.Native.Nat.{ℕ, ◌*◌, ◌≤◌, ◌<◌}
use mathlib.Core.Path.{◌≡◌, ap, subst}
use mathlib.Core.Logic.{◌≢◌}
use mathlib.Core.Bool.{Bool, true}
use native.Mathlib.Omega.{arith}
use native.Mathlib.Nat.{le_of_mul-le-mul_right, mul-le-mul_right, mul_right_comm, le_trans}
use compliance_framework.Prelude.Tests.{leb, ltb}

pub record Ratio : Type 0 where
  pub num : ℕ
  pub den : ℕ

abbrev pub leb_ratio : Ratio → Ratio → Bool
leb_ratio a b = leb (a.num * b.den) (b.num * a.den)

abbrev pub ltb_ratio : Ratio → Ratio → Bool
ltb_ratio a b = ltb (a.num * b.den) (b.num * a.den)

infix 50 ◌≤ℚ◌
abbrev pub ◌≤ℚ◌ : Ratio → Ratio → Type 0
a ≤ℚ b = a.num * b.den ≤ b.num * a.den

abbrev pub zero_ratio : Ratio
zero_ratio = record { num = 0; den = 1 }

pub le_ratio_trans : (a b c : Ratio) → 0 < b.den → a ≤ℚ b → b ≤ℚ c → a ≤ℚ c
le_ratio_trans a b c h p q =
    le_of_mul-le-mul_right {k = b.den}
      (le_trans
        (subst (λ n. n ≤ b.num * a.den * c.den) (mul_right_comm a.num b.den c.den)
          (mul-le-mul_right c.den p))
        (subst (λ n. n ≤ c.num * a.den * b.den) (mul_right_comm b.num c.den a.den)
          (subst (λ n. b.num * c.den * a.den ≤ n) (mul_right_comm c.num b.den a.den)
            (mul-le-mul_right a.den q))))
      h

pub ltb_ratio-positive : (a b : Ratio) → ltb_ratio a b ≡ true → b.num ≢ 0
ltb_ratio-positive a b h e = ground (arith, ap (λ n. n * a.den) e)
