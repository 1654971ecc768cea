-- ===== src/Identity/SessionToken/Dots.antt =====
-- Texts and the dots in them.
use Prim.Native.Char.{Char, code}
use text.Mathlib.TextLemmas.{nil-append, cons-append}
use text.Mathlib.TextEquality.{Char-path}
use Prim.Native.String.{[], ◌∷◌}
use compliance_framework.Prelude.{
  ℕ, String, ◌<>◌, ◌≡◌, refl, ap, sym, subst, ◌∙◌, inl, inr, none, some, eqb, Bool-cases,
  Option-cases, str_nat, digit, str_nat_closed, if_closed, ltb, arith,
}
use compliance_framework.Identity.SessionToken.{at_dot}

-- The text has no dot.
abbrev pub IsDotless : String → Type 0
IsDotless s = at_dot s ≡ none

abbrev dot : Char
dot = "."

pub dot-cons : (b : String) → "." <> b ≡ dot ∷ b
dot-cons b = cons-append dot [] b ∙ ap (◌∷◌ dot) (nil-append b)

pub at_dot-dot : (b : String) → at_dot (dot ∷ b) ≡ some ([], b)
unfolding at_dot
at_dot-dot b = refl

pub at_dot_longer :
    (c : Char) (a b : String)
    → IsDotless (c ∷ a)
    → (IsDotless a → at_dot (a <> "." <> b) ≡ some (a, b))
    → at_dot (c ∷ (a <> "." <> b)) ≡ some (c ∷ a, b)
unfolding at_dot
at_dot_longer c a b h ih = elim (Bool-cases (eqb (code c) b'.')) [
  | inl here ↦ absurd (ground arith)
  | inr other ↦ elim (Option-cases (at_dot a)) [
    | inl free ↦ let e = ih free in ground arith
    | inr (p, found) ↦ absurd (ground arith)
  ]
]

pub IsDotless-tail : (c : Char) (a : String) → IsDotless (c ∷ a) → IsDotless a
unfolding at_dot
IsDotless-tail c a h = elim (Option-cases (at_dot a)) [
  | inl free ↦ free
  | inr (p, found) ↦
      absurd (elim (Bool-cases (eqb (code c) b'.')) [
        | inl here ↦ ground arith
        | inr other ↦ ground arith
      ])
]

pub at_dot-append : (a b : String) → IsDotless a → at_dot (a <> "." <> b) ≡ some (a, b)
at_dot-append [] b h = ap at_dot (nil-append _ ∙ dot-cons b) ∙ at_dot-dot b
at_dot-append (c ∷ a) b h =
    ap at_dot (cons-append c a _)
    ∙ at_dot_longer c a b h (λ _. at_dot-append a b (IsDotless-tail c a h))

-- What is split off at a dot has no dot, and the text is put together again with one.
pub at_dot-some : (s a b : String) → at_dot s ≡ some (a, b) → (s ≡ a <> "." <> b) × IsDotless a
unfolding at_dot
at_dot-some [] a b h = absurd (cc)
at_dot-some (c ∷ s) a b h = elim (Bool-cases (eqb (code c) b'.')) [
  | inl here ↦
      let is_dot : c ≡ dot = Char-path c dot (ground arith) in
      let first : [] ≡ a = ground arith in
      let rest : s ≡ b = ground arith in
      (
        ap (λ d. d ∷ s) is_dot
            ∙ ap (◌∷◌ dot) rest
            ∙ sym (dot-cons b)
            ∙ sym (nil-append _)
            ∙ ap (λ t. t <> "." <> b) first,
        subst IsDotless first refl,
      )
  | inr other ↦ elim (Option-cases (at_dot s)) [
    | inl free ↦ absurd (ground arith)
    | inr ((x, y), found) ↦
        let (same, clean) = at_dot-some s x y found in
        let first : c ∷ x ≡ a = ground arith in
        let rest : y ≡ b = ground arith in
        (
          ap (◌∷◌ c) same
              ∙ sym (cons-append c x _)
              ∙ ap (λ t. t <> "." <> y) first
              ∙ ap (λ t. a <> "." <> t) rest,
          subst IsDotless first (ground arith),
        )
  ]
]

pub cons-IsDotless : (c : Char) (a t : String) → IsDotless (c ∷ a) → IsDotless t → IsDotless (c ∷ t)
unfolding at_dot
cons-IsDotless c a t h k = elim (Bool-cases (eqb (code c) b'.')) [
  | inl here ↦ absurd (ground arith)
  | inr other ↦ ground arith
]

pub append-IsDotless : (a b : String) → IsDotless a → IsDotless b → IsDotless (a <> b)
append-IsDotless [] b h k = subst IsDotless (sym (nil-append b)) k
append-IsDotless (c ∷ a) b h k =
    subst IsDotless (sym (cons-append c a b))
      (cons-IsDotless c a (a <> b) h (append-IsDotless a b (IsDotless-tail c a h) k))

pub digit-IsDotless : (n : ℕ) → IsDotless (digit n)
unfolding at_dot
digit-IsDotless n = if_closed IsDotless (ltb n 1) _ _ refl (
    if_closed IsDotless (ltb n 2) _ _ refl (
      if_closed IsDotless (ltb n 3) _ _ refl (
        if_closed IsDotless (ltb n 4) _ _ refl (
          if_closed IsDotless (ltb n 5) _ _ refl (
            if_closed IsDotless (ltb n 6) _ _ refl (
              if_closed IsDotless (ltb n 7) _ _ refl (
                if_closed IsDotless (ltb n 8) _ _ refl
                  (if_closed IsDotless (ltb n 9) _ _ refl refl))))))))

pub str_nat-IsDotless : (n : ℕ) → IsDotless (str_nat n)
unfolding at_dot
str_nat-IsDotless n = str_nat_closed IsDotless refl digit-IsDotless append-IsDotless n
