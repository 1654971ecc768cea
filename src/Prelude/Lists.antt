-- ===== src/Prelude/Lists.antt =====
-- Lists measured by native numbers, and the predicates "all" and "some" by recursion.
use Prim.Native.Nat.{ℕ, suc, ◌+◌}
use mathlib.Core.Path.{◌≡◌, refl, ap}
use mathlib.Core.Logic.{◌↔◌, ◌⊎◌, inl, inr}
use mathlib.Core.Bool.{Bool, true, false, ◌||◌}
use mathlib.Core.List.{List, [], ◌∷◌, ◌++◌, map}
use native.Mathlib.Omega.{arith}

module _ {ℓ} {A : Type ℓ} where
  abbrev pub length : List A → ℕ
  length [] = 0
  length (x ∷ xs) = suc (length xs)

  pub length-append : (xs ys : List A) → length (xs ++ ys) ≡ length xs + length ys
  length-append [] ys = omega arith
  length-append (x ∷ xs) ys = omega (arith, length-append xs ys)

  -- `any(p(x) for x in xs)`
  abbrev pub any : (A → Bool) → List A → Bool
  any p [] = false
  any p (x ∷ xs) = p x || any p xs

  abbrev pub filter : (A → Bool) → List A → List A
  filter p [] = []
  filter p (x ∷ xs) = elim (p x) [ true ↦ x ∷ filter p xs | false ↦ filter p xs ]

  pub List-cases : (xs : List A) → (xs ≡ []) ⊎ ((y : A) × (ys : List A) × (xs ≡ y ∷ ys))
  List-cases [] = inl refl
  List-cases (x ∷ xs) = inr (x, xs, refl)

  -- The truth value of a list.
  abbrev pub truthy : List A → Bool
  truthy [] = false
  truthy (x ∷ xs) = true

module _ {ℓ κ} {A : Type ℓ} {B : Type κ} (f : A → B) where
  pub length-map : (xs : List A) → length (map f xs) ≡ length xs
  length-map [] = refl
  length-map (x ∷ xs) = ap suc (length-map xs)

module _ {ℓ} {A : Type ℓ} where
  abbrev pub All : (A → Type 0) → List A → Type 0
  All P [] = Unit
  All P (x ∷ xs) = P x × All P xs

  abbrev pub Some : (A → Type 0) → List A → Type 0
  Some P [] = ⊥
  Some P (x ∷ xs) = P x ⊎ Some P xs

module _ {ℓ} {A : Type ℓ} (P : A → Type 0) (p : A → Bool) where
  pub any_iff : ((x : A) → (p x ≡ true) ↔ P x) → (xs : List A) → (any p xs ≡ true) ↔ Some P xs
  any_iff h [] = ground arith
  any_iff h (x ∷ xs) = ground (arith, h x, any_iff h xs)

module _ {ℓ} {A : Type ℓ} (P : A → Type 0) where
  pub All-append : (xs ys : List A) → All P xs → All P ys → All P (xs ++ ys)
  All-append [] ys h k = k
  All-append (x ∷ xs) ys h k = (h.0, All-append xs ys h.1 k)

  -- One element is replaced by another that has the property if the first has it.
  pub All_replace :
      (xs ys : List A) {x y : A} → (P x → P y) → All P (xs ++ x ∷ ys) → All P (xs ++ y ∷ ys)
  All_replace [] ys f h = (f h.0, h.1)
  All_replace (z ∷ xs) ys f h = (h.0, All_replace xs ys f h.1)

  pub All_at : (xs ys : List A) {x : A} → All P (xs ++ x ∷ ys) → P x
  All_at [] ys h = h.0
  All_at (z ∷ xs) ys h = All_at xs ys h.1

module _ {ℓ} {A : Type ℓ} (P Q : A → Type 0) (same : (x : A) → P x ↔ Q x) where
  pub All-iff : (xs : List A) → All P xs ↔ All Q xs
  All-iff [] = (λ h. h, λ h. h)
  All-iff (x ∷ xs) =
      (λ h. ((same x).0 h.0, (All-iff xs).0 h.1), λ h. ((same x).1 h.0, (All-iff xs).1 h.1))

  pub Some-iff : (xs : List A) → Some P xs ↔ Some Q xs
  Some-iff [] = (λ h. h, λ h. h)
  Some-iff (x ∷ xs) = ground (arith, same x, Some-iff xs)

module _ {ℓ} {A : Type ℓ} {P Q : A → Type 0} (f : (x : A) → P x → Q x) where
  pub All-map : (xs : List A) → All P xs → All Q xs
  All-map [] h = tt
  All-map (x ∷ xs) h = (f x h.0, All-map xs h.1)

  pub Some-map : (xs : List A) → Some P xs → Some Q xs
  Some-map [] h = h
  Some-map (x ∷ xs) (inl p) = inl (f x p)
  Some-map (x ∷ xs) (inr h) = inr (Some-map xs h)

pub Some-absurd {ℓ} :
    {A : Type ℓ} {P : A → Type 0} → ((x : A) → ¬ P x) → (xs : List A) → ¬ Some P xs
Some-absurd f [] h = h
Some-absurd f (x ∷ xs) (inl p) = f x p
Some-absurd f (x ∷ xs) (inr h) = Some-absurd f xs h
