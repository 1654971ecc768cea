-- ===== src/Guardrails/Tokens/Sets.antt =====
-- Sets as lists: what has the same members has the same size.
use compliance_framework.Prelude.{
  ◌+◌, ◌≤◌, String, Bool, true, not, ◌≡◌, refl, ap, ◌↔◌, inl, inr, ◌==◌, eq_iff, Bool-cases, member,
  member_iff, In, List, [], ◌∷◌, length, length-append, filter, arith, subst,
}
use compliance_framework.Guardrails.Tokens.{to_set, intersection, union}

-- No text stands in the list twice.
abbrev pub IsDistinct : List String → Type 0
IsDistinct [] = Unit
IsDistinct (x ∷ xs) = ¬ In x xs × IsDistinct xs

abbrev pub Subset : List String → List String → Type 0
Subset a b = (x : String) → In x a → In x b

module _ (p : String → Bool) where
  pub filter_iff : (x : String) (xs : List String) → In x (filter p xs) ↔ (In x xs × (p x ≡ true))
  filter_iff x [] = ground arith
  filter_iff x (y ∷ ys) = ground (arith, filter_iff x ys, λ (e : y ≡ x). ap p e)

  pub filter-IsDistinct : (xs : List String) → IsDistinct xs → IsDistinct (filter p xs)
  filter-IsDistinct [] h = tt
  filter-IsDistinct (x ∷ xs) (new, h) = elim (Bool-cases (p x)) [
    | inl kept ↦
        let fresh : ¬ In x (filter p xs) = λ i. new ((filter_iff x xs).0 i).0 in
        ground (arith, fresh, filter-IsDistinct xs h)
    | inr dropped ↦ ground (arith, filter-IsDistinct xs h)
  ]

  pub length-filter : (xs : List String) → length (filter p xs) ≤ length xs
  length-filter [] = omega arith
  length-filter (x ∷ xs) = ground (arith, length-filter xs)

pub to_set_iff : (x : String) (xs : List String) → In x (to_set xs) ↔ In x xs
unfolding to_set
to_set_iff x [] = ground arith
to_set_iff x (y ∷ ys) = ground (
  arith,
  to_set_iff x ys,
  member_iff y (to_set ys),
  λ (e : y ≡ x) (i : In y (to_set ys)). subst (λ z. In z (to_set ys)) e i,
)

pub to_set-IsDistinct : (xs : List String) → IsDistinct (to_set xs)
unfolding to_set
to_set-IsDistinct [] = tt
to_set-IsDistinct (x ∷ xs) = elim (Bool-cases (member x (to_set xs))) [
  | inl there ↦ ground (arith, to_set-IsDistinct xs)
  | inr new ↦
      let fresh : ¬ In x (to_set xs) = λ i. cc (new, (member_iff x (to_set xs)).1 i) in
      ground (arith, fresh, to_set-IsDistinct xs)
]

abbrev without : String → List String → List String
without x = filter (λ y. not (y == x))

length-without : (x : String) (xs : List String) → In x xs → length (without x xs) + 1 ≤ length xs
length-without x [] i = absurd i
length-without x (y ∷ ys) i =
    ground (arith, eq_iff y x, length-without x ys, length-filter (λ z. not (z == x)) ys)

-- A set has no more members than a list that holds them all.
pub Subset-length : (a b : List String) → IsDistinct a → Subset a b → length a ≤ length b
Subset-length [] b h s = omega arith
Subset-length (x ∷ xs) b (new, h) s =
    let shorter = length-without x b (s x (inl refl)) in
    let smaller = Subset-length xs (without x b) h (λ y i. (filter_iff (λ z. not (z == x)) y b).1 (
      s y (inr i),
      elim (Bool-cases (y == x)) [
        | inl same ↦ absurd (new (subst (λ z. In z xs) ((eq_iff y x).0 same) i))
        | inr other ↦ rw other refl
      ],
    )) in
    omega (arith, shorter, smaller)

abbrev pub SameMembers : List String → List String → Type 0
SameMembers a b = (x : String) → In x a ↔ In x b

pub SameMembers-length :
    (a b : List String) → IsDistinct a → IsDistinct b → SameMembers a b → length a ≡ length b
SameMembers-length a b h k same =
    omega
      (arith, Subset-length a b h (λ x i. (same x).0 i), Subset-length b a k (λ x i. (same x).1 i))

SameMembers-filter :
    (p : String → Bool) (a b : List String)
    → SameMembers a b
    → SameMembers (filter p a) (filter p b)
SameMembers-filter p a b same x = ground (arith, filter_iff p x a, filter_iff p x b, same x)

pub SameMembers-member :
    (a b : List String) → SameMembers a b → (x : String) → member x a ≡ member x b
SameMembers-member a b same x = ground (arith, member_iff x a, member_iff x b, same x)

filter_eq :
    (p q : String → Bool)
    → ((x : String) → p x ≡ q x)
    → (xs : List String) → filter p xs ≡ filter q xs
filter_eq p q h [] = refl
filter_eq p q h (x ∷ xs) = ground (arith, h x, filter_eq p q h xs)

-- Sizes of intersections and unions depend on the members only.
module _ (a b c : List String) (h : IsDistinct a) (k : IsDistinct b) (same : SameMembers a b) where
  pub length-intersection_same : length (intersection a c) ≡ length (intersection b c)
  unfolding intersection
  length-intersection_same =
      let p = λ (x : String). member x c in
      SameMembers-length (filter p a) (filter p b) (filter-IsDistinct p a h)
        (filter-IsDistinct p b k) (SameMembers-filter p a b same)

  pub length-union_same : length (union a c) ≡ length (union b c)
  unfolding union
  length-union_same =
      let p = λ (x : String). not (member x a) in
      let q = λ (x : String). not (member x b) in
      let rest = filter_eq p q (λ x. ap not (SameMembers-member a b same x)) c in
      omega (
        arith,
        length-append a (filter p c),
        length-append b (filter q c),
        ap length rest,
        SameMembers-length a b h k same,
      )

-- An intersection is no larger than the union.
pub length-intersection-union : (a b : List String) → length (intersection a b) ≤ length (union a b)
unfolding intersection union
length-intersection-union a b =
    omega
      (arith, length-filter (λ x. member x b) a, length-append a (filter (λ x. not (member x a)) b))
