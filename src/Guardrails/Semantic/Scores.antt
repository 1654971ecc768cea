-- ===== src/Guardrails/Semantic/Scores.antt =====
-- The score is the greatest similarity, and the guardrail rejects by it.
use compliance_framework.Prelude.{
  ◌↔◌, ◌≤◌, ◌<◌, String, ◌≡◌, refl, ap, ◌∙◌, ◌↔◌, ◌⊎◌, inl, inr, none, some, length-append, List,
  [], ◌∷◌, Dict, All, Some, All-map, Some-map, subst, Result, raise, Ratio, leb_ratio, ltb_ratio,
  ltb_ratio-positive, ◌≤ℚ◌, le_ratio_trans, zero_ratio, Bool-cases, arith,
}
use compliance_framework.Models.{ExecutionContext}
use compliance_framework.Runtime.{Runtime}
use compliance_framework.Guardrails.Tokens.{union}
use compliance_framework.Guardrails.Tokens.Sets.{length-intersection-union}
use compliance_framework.Guardrails.Semantic.{
  injection_intents, jaccard, Best, improve, best_of, tokenize, semantic_injection_score,
  inspect_input, rejection,
}

-- A similarity is between 0 and 1.
pub jaccard_bounds :
    (a b : List String) → (0 < (jaccard a b).den) × ((jaccard a b).num ≤ (jaccard a b).den)
unfolding jaccard
jaccard_bounds [] b = (omega arith, omega arith)
jaccard_bounds (x ∷ a) [] = (omega arith, omega arith)
jaccard_bounds (x ∷ a) (y ∷ b) = (
  unfold union in omega (arith, length-append (x ∷ a) _),
  length-intersection-union (x ∷ a) (y ∷ b),
)

abbrev pub Scored : Best → Dict (List String) → List String → Type 0
Scored r intents tokens =
    Some (λ entry. r ≡ record { score = jaccard tokens entry.1; label = some entry.0 }) intents

module _ (tokens : List String) where
  -- The end of the loop: no intent is more similar than the best, which is that of an intent, or what
  -- the loop began with.
  pub record IsBest (best r : Best) (intents : Dict (List String)) : Type 0 where
    pub positive : 0 < r.score.den
    pub grown : best.score ≤ℚ r.score
    pub above : All (λ entry. jaccard tokens entry.1 ≤ℚ r.score) intents
    pub from : (r ≡ best) ⊎ Scored r intents tokens

  improve_cases :
      (best : Best) (label : String) (score : Ratio)
      → 0 < score.den
      → 0 < best.score.den
      → let r = improve best label score in
        (0 < r.score.den)
        × (best.score ≤ℚ r.score)
        × (score ≤ℚ r.score)
        × ((r ≡ best) ⊎ (r ≡ record { score = score; label = some label }))
  unfolding improve
  improve_cases best label score h k = elim (Bool-cases (ltb_ratio best.score score)) [
    | inl better ↦ ground arith
    | inr no_better ↦ ground arith
  ]

  best_of-IsBest :
      (best : Best) (intents : Dict (List String))
      → 0 < best.score.den
      → IsBest best (best_of tokens best intents) intents
  unfolding best_of
  best_of-IsBest best [] h = record {
    positive = h;
    grown = omega arith;
    above = tt;
    from = inl refl;
  }
  best_of-IsBest best ((label, intent) ∷ intents) h =
      let score = jaccard tokens intent in
      let better = improve best label score in
      let (positive, grown, above, from) =
        improve_cases best label score (jaccard_bounds tokens intent).0 h in
      let rest = best_of-IsBest better intents positive in
      let r = best_of tokens better intents in
      record {
        positive = rest.positive;
        grown = le_ratio_trans best.score better.score r.score positive grown rest.grown;
        above = (le_ratio_trans score better.score r.score positive above rest.grown, rest.above);
        from = elim rest.from [
          | inr later ↦ inr (inr later)
          | inl same ↦ elim from [
            | inl kept ↦ inl (same ∙ kept)
            | inr taken ↦ inr (inl (same ∙ taken))
          ]
        ];
      }

abbrev no_match : Best
no_match = record { score = zero_ratio; label = none }

module _ (py : Runtime) (text : String) where
  pub score-IsBest :
      IsBest (tokenize py text) no_match (semantic_injection_score py text) injection_intents
  unfolding semantic_injection_score
  score-IsBest = best_of-IsBest (tokenize py text) no_match injection_intents (omega arith)

-- A score within bounds, that has a label exactly if it is above 0.
pub record IsScore (b : Best) : Type 0 where
  pub positive : 0 < b.score.den
  pub bounded : b.score.num ≤ b.score.den
  pub labelled : (b.label ≡ none) ↔ (b.score.num ≡ 0)

improve-IsScore :
    (best : Best) (label : String) (score : Ratio)
    → 0 < score.den
    → score.num ≤ score.den
    → IsScore best
    → IsScore (improve best label score)
unfolding improve
improve-IsScore best label score h k is_score = elim (Bool-cases (ltb_ratio best.score score)) [
  | inl better ↦ rw better (record {
    positive = h;
    bounded = k;
    labelled =
        (λ e. absurd (ground arith), λ e. absurd (ltb_ratio-positive best.score score better e));
  })
  | inr no_better ↦ rw no_better is_score
]

best_of-IsScore :
    (tokens : List String) (best : Best) (intents : Dict (List String))
    → IsScore best
    → IsScore (best_of tokens best intents)
unfolding best_of
best_of-IsScore tokens best [] h = h
best_of-IsScore tokens best ((label, intent) ∷ intents) h =
    let (positive, bounded) = jaccard_bounds tokens intent in
    best_of-IsScore tokens (improve best label (jaccard tokens intent)) intents
      (improve-IsScore best label (jaccard tokens intent) positive bounded h)

-- The score of any text is between 0 and 1, and it comes with a label unless it is 0: no rejection
-- names the intent `None`, if the threshold is above 0.
pub semantic_injection_score_bounds :
    (py : Runtime) (text : String) → IsScore (semantic_injection_score py text)
unfolding semantic_injection_score
semantic_injection_score_bounds py text =
    best_of-IsScore (tokenize py text) no_match injection_intents
      (record { positive = omega arith; bounded = omega arith; labelled = (λ e. refl, λ e. refl) })

-- What an inspection answers that rejects the prompt for this intent.
abbrev pub Rejects :
    Runtime
    → Ratio
    → (String → ExecutionContext → Result String)
    → String
    → ExecutionContext
    → String × List String
    → Type 0
Rejects py threshold inner prompt context entry =
    let similarity = jaccard (tokenize py prompt) entry.1 in
    (threshold ≤ℚ similarity)
    × (inspect_input py threshold inner prompt context
        ≡ raise (rejection py (record { score = similarity; label = some entry.0 }) context))

module _ (py : Runtime) (threshold : Ratio) (inner : String → ExecutionContext → Result String)
    (prompt : String) (context : ExecutionContext) where
  -- With a threshold above 0, either no known intent is as similar to the prompt as the threshold, and
  -- the inspection is that of the inner guardrail; or there is an intent that is, with none more
  -- similar, and the prompt is rejected with the label and the similarity of that intent.
  pub inspect_input_exact :
      0 < threshold.num
      → (All (λ entry. ¬ (threshold ≤ℚ jaccard (tokenize py prompt) entry.1)) injection_intents
          × (inspect_input py threshold inner prompt context ≡ inner prompt context))
        ⊎ Some
            (λ entry.
              Rejects py threshold inner prompt context entry
              × All
                  (λ other.
                    jaccard (tokenize py prompt) other.1 ≤ℚ jaccard (tokenize py prompt) entry.1)
                  injection_intents)
            injection_intents
  unfolding inspect_input
  inspect_input_exact h =
      let best = semantic_injection_score py prompt in
      let tokens = tokenize py prompt in
      let sure = score-IsBest py prompt in
      elim (Bool-cases (leb_ratio threshold best.score)) [
        | inr below ↦ inl (
          All-map
              (λ entry k reaches.
                let over =
                  le_ratio_trans threshold (jaccard tokens entry.1) best.score
                    (jaccard_bounds tokens entry.1).0 reaches k in
                ground (arith, over))
              injection_intents sure.above,
          rw below refl,
        )
        | inl reached ↦
            let high : threshold ≤ℚ best.score = ground arith in
            elim sure.from [
              | inl nothing ↦
                  let nought : threshold ≤ℚ zero_ratio =
                    subst (λ (b : Best). threshold ≤ℚ b.score) nothing high in
                  absurd (omega (arith, nought, h))
              | inr found ↦ inr (
                  Some-map
                    (λ entry e. (
                      (
                        subst (λ (b : Best). threshold ≤ℚ b.score) e high,
                        rw reached (ap (λ b. raise (rejection py b context)) e),
                      ),
                      subst
                          (λ (b : Best).
                            All (λ other. jaccard tokens other.1 ≤ℚ b.score) injection_intents)
                          e sure.above,
                    ))
                    injection_intents found)
            ]
      ]
