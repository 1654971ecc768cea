-- ===== src/Audit/Dlp.antt =====
-- audit/dlp.py
use Prim.Native.Nat.{Ordering}
use Prim.Native.String.{compare}
use compliance_framework.Prelude.{
  ℕ, ◌≤◌, String, ◌≡◌, refl, ◌⊎◌, inl, inr, ◌||◌, ltb, ◌==◌, All, All-map, Some, Some-map, ◌<◌, ◌∙◌,
  Bool-cases, List, [], ◌∷◌, map, arith, if◌then◌else◌,
}
use compliance_framework.Runtime.{Runtime}
use compliance_framework.Guardrails.Patterns.{
  pii_patterns, matching, mask, IsLawful, mask_with_unmatched,
}

pub data SensitivityTier : Type 0 where
  nothing low medium restricted : SensitivityTier

abbrev pub rank : SensitivityTier → ℕ
rank nothing = 0
rank low = 1
rank medium = 2
rank restricted = 3

-- the dictionary `_TIER_BY_CATEGORY`, with the default of `get`
unfoldable pub tier_by_category : String → SensitivityTier
tier_by_category label =
    if label == "ip_address"
    then low
    else if label == "email" || label == "phone"
    then medium
    else if label == "ssn" || label == "credit_card"
    then restricted
    else low

-- `max(tiers) if tiers else cls.NONE`
unfoldable pub max_tier : List SensitivityTier → SensitivityTier
max_tier [] = nothing
max_tier (t ∷ ts) = let m = max_tier ts in if ltb (rank t) (rank m) then m else t

insert_text : String → List String → List String
insert_text x [] = x ∷ []
insert_text x (y ∷ ys) =
    let rest = insert_text x ys in elim (compare x y) [ Ordering.gt ↦ y ∷ rest | _ ↦ x ∷ y ∷ ys ]

unfoldable pub sorted : List String → List String
unfolding insert_text
sorted [] = []
sorted (x ∷ xs) = insert_text x (sorted xs)

pub record DlpClassification : Type 0 where
  pub tier : SensitivityTier
  pub categories : List String

unfoldable pub classify : Runtime → String → DlpClassification
unfolding max_tier sorted
classify py text =
    let categories = matching text (pii_patterns py) in
    record { tier = max_tier (map tier_by_category categories); categories = sorted categories }

max_tier-cons :
    (t : SensitivityTier) (ts : List SensitivityTier)
    → (rank t ≤ rank (max_tier (t ∷ ts)))
      × (rank (max_tier ts) ≤ rank (max_tier (t ∷ ts)))
      × ((t ≡ max_tier (t ∷ ts)) ⊎ ((0 < rank (max_tier ts)) × (max_tier ts ≡ max_tier (t ∷ ts))))
unfolding max_tier
max_tier-cons t ts = elim (Bool-cases (ltb (rank t) (rank (max_tier ts)))) [
  | inl less ↦ rw (less) (ground arith, ground arith, inr (ground arith, refl))
  | inr not_less ↦ rw (not_less) (ground arith, ground arith, inl refl)
]

-- The tier is that of some category, if there is one, and no category has a higher one.
pub max_tier_greatest :
    (labels : List String)
    → All
        (λ label. rank (tier_by_category label) ≤ rank (max_tier (map tier_by_category labels)))
        labels
      × ((labels ≡ [])
          ⊎ Some (λ label. tier_by_category label ≡ max_tier (map tier_by_category labels)) labels)
max_tier_greatest [] = (tt, inl refl)
max_tier_greatest (x ∷ xs) =
    let (below, attained) = max_tier_greatest xs in
    let (first, rest, from) = max_tier-cons (tier_by_category x) (map tier_by_category xs) in
    (
      (first, All-map (λ label h. omega arith) xs below),
      inr (elim from [
        | inl here ↦ inl here
        | inr (some_tier, there) ↦ elim attained [
          | inl none_left ↦ absurd (unfold max_tier in ground arith)
          | inr later ↦ inr (Some-map (λ label h. h ∙ there) xs later)
        ]
      ]),
    )

insert_text-not_nil : (x : String) (ys : List String) → insert_text x ys ≡ [] → ⊥
unfolding insert_text
insert_text-not_nil x [] h = cc
insert_text-not_nil x (y ∷ ys) h = ground arith

sorted-not_nil : (xs : List String) → sorted xs ≡ [] → xs ≡ []
unfolding sorted
sorted-not_nil [] h = refl
sorted-not_nil (x ∷ xs) h = absurd (insert_text-not_nil x (sorted xs) h)

-- The classifier and the mask agree on what is personal: a text that is classified into no category
-- is left as it is by `mask`, if the compiled patterns keep to what `re` documents.
pub mask_of_unclassified :
    (py : Runtime) (text : String)
    → All (IsLawful py) (pii_patterns py)
    → (classify py text).categories ≡ []
    → mask py text ≡ text
unfolding classify mask
mask_of_unclassified py text laws h =
    mask_with_unmatched py (pii_patterns py) text laws (sorted-not_nil _ h)
