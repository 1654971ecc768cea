-- ===== src/Guardrails/Semantic/Words.antt =====
-- The score of a text depends on which words it has, not on their order or number.
use compliance_framework.Prelude.{
  String, ◌≡◌, refl, ap, ◌∙◌, truthy, length, List, [], ◌∷◌, Dict, arith,
}
use compliance_framework.Runtime.{Runtime}
use compliance_framework.Guardrails.Tokens.{findall}
use compliance_framework.Guardrails.Tokens.Sets.{
  IsDistinct, SameMembers, SameMembers-length, length-intersection_same, length-union_same,
  to_set_iff, to_set-IsDistinct,
}
use compliance_framework.Guardrails.Semantic.{
  injection_intents, jaccard, Best, improve, best_of, tokenize, semantic_injection_score,
}
use compliance_framework.Guardrails.Tokens.Words.{Spells, findall-Spells}

truthy_same : (a b : List String) → length a ≡ length b → truthy a ≡ truthy b
truthy_same [] [] e = refl
truthy_same [] (y ∷ b) e = absurd (omega (arith, e))
truthy_same (x ∷ a) [] e = absurd (omega (arith, e))
truthy_same (x ∷ a) (y ∷ b) e = refl

module _ (a b : List String) (h : IsDistinct a) (k : IsDistinct b) (same : SameMembers a b) where
  jaccard_same : (c : List String) → jaccard a c ≡ jaccard b c
  unfolding jaccard
  jaccard_same c =
      rw
        (
          truthy_same a b (SameMembers-length a b h k same),
          length-intersection_same a b c h k same,
          length-union_same a b c h k same,
        )
        refl

  best_of_same :
      (best : Best) (intents : Dict (List String)) → best_of a best intents ≡ best_of b best intents
  unfolding best_of
  best_of_same best [] = refl
  best_of_same best ((label, intent) ∷ intents) =
      ap (λ r. best_of a (improve best label r) intents) (jaccard_same intent)
      ∙ best_of_same (improve best label (jaccard b intent)) intents

module _ (py : Runtime) where
  score_same :
      (s t : String)
      → SameMembers (findall (py.lower s)) (findall (py.lower t))
      → semantic_injection_score py s ≡ semantic_injection_score py t
  unfolding semantic_injection_score tokenize
  score_same s t same =
      best_of_same (tokenize py s) (tokenize py t) (to_set-IsDistinct _) (to_set-IsDistinct _)
        (λ x.
          ground (
            arith,
            to_set_iff x (findall (py.lower s)),
            to_set_iff x (findall (py.lower t)),
            same x,
          ))
        _ injection_intents

  -- Word order and repetition do not help an attacker, nor do capitals and what stands between the
  -- words: two texts have the same best score and label if each word of one is a word of the other,
  -- where the words are those that the texts are spelled with after `lower`.
  pub score-reordered :
      (s t : String) (ws vs : List String)
      → Spells (py.lower s) ws
      → Spells (py.lower t) vs
      → SameMembers ws vs
      → semantic_injection_score py s ≡ semantic_injection_score py t
  score-reordered s t ws vs h k same =
      let left = findall-Spells h in
      let right = findall-Spells k in score_same s t (λ x. rw (left, right) (same x))
