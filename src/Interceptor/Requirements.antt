-- ===== src/Interceptor/Requirements.antt =====
-- `sorted(set(requirements) - _SUPPORTED_REQUIREMENTS)` of interceptor.py.
use Prim.Native.Nat.{Ordering}
use Prim.Native.String.{compare}
use compliance_framework.Prelude.{
  String, ◌≡◌, ◌↔◌, ◌==◌, eq_iff, All, List, [], ◌∷◌, arith, if◌then◌else◌,
}

-- Into a sorted list, unless it is there.
unfoldable pub insert_sorted : String → List String → List String
insert_sorted x [] = x ∷ []
insert_sorted x (y ∷ ys) =
    let rest = insert_sorted x ys in
    elim (compare x y) [ Ordering.lt ↦ x ∷ y ∷ ys | Ordering.eq ↦ y ∷ ys | Ordering.gt ↦ y ∷ rest ]

unfoldable pub unsupported : List String → List String
unfolding insert_sorted
unsupported [] = []
unsupported (x ∷ xs) =
    let rest = unsupported xs in if x == "human_approval" then rest else insert_sorted x rest

insert_sorted-not_empty : (x : String) (xs : List String) → insert_sorted x xs ≡ [] → ⊥
unfolding insert_sorted
insert_sorted-not_empty x [] h = cc
insert_sorted-not_empty x (y ∷ ys) h = ground arith

abbrev pub AllSupported : List String → Type 0
AllSupported = All (λ x. x ≡ "human_approval")

-- No requirement is unsupported exactly when each of them is the approval by a human.
pub unsupported-nil_iff : (xs : List String) → (unsupported xs ≡ []) ↔ AllSupported xs
unfolding unsupported
unsupported-nil_iff [] = ground arith
unsupported-nil_iff (x ∷ xs) = ground (
  arith,
  unsupported-nil_iff xs,
  eq_iff x "human_approval",
  insert_sorted-not_empty x (unsupported xs),
)
