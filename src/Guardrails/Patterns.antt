-- ===== src/Guardrails/Patterns.antt =====
-- guardrails/patterns.py
use compliance_framework.Prelude.{
  String, ◌<>◌, false, ◌≡◌, refl, List, [], ◌∷◌, Dict, All, if◌then◌else◌, arith, ap, ◌∙◌,
  Bool-cases, inl, inr,
}
use compliance_framework.Runtime.{Regex, Runtime}

-- The labels of the patterns that are found in a text, in the order of the patterns.
unfoldable pub matching : String → Dict Regex → List String
matching text [] = []
matching text ((label, pattern) ∷ patterns) =
    let rest = matching text patterns in if pattern.search text then label ∷ rest else rest

module _ (py : Runtime) where
  unfoldable pub pii_patterns : Dict Regex
  pii_patterns =
      ("email", py.compile "[a-zA-Z0-9._%+-]+@[a-zA-Z0-9.-]+\\.[a-zA-Z]{2,}")
      ∷ ("phone", py.compile "\\b(?:\\+?1[-. ]?)?\\(?\\d{3}\\)?[-. ]?\\d{3}[-. ]?\\d{4}\\b")
      ∷ ("ssn", py.compile "\\b\\d{3}-\\d{2}-\\d{4}\\b")
      ∷ ("credit_card", py.compile "\\b(?:\\d[ -]?){13,16}\\b")
      ∷ (
        "ip_address",
        py.compile
            "\\b(?:(?:25[0-5]|2[0-4]\\d|[01]?\\d?\\d)\\.){3}(?:25[0-5]|2[0-4]\\d|[01]?\\d?\\d)\\b",
      )
      ∷ []

  unfoldable pub prompt_injection_patterns : Dict Regex
  prompt_injection_patterns =
      (
        "ignore_instructions",
        py.compile "(?i)\\bignore\\s+(all\\s+)?(previous|prior|above)\\s+instructions\\b",
      )
      ∷ (
        "forged_control_token",
        py.compile "<<\\s*(SYS|SYSTEM|INST)\\s*>>|\\[\\[\\s*SYSTEM\\s*\\]\\]",
      )
      ∷ ("role_override", py.compile "(?i)\\byou\\s+are\\s+now\\s+(a|an)\\b")
      ∷ []

  -- the loop of `mask`
  unfoldable pub mask_with : Dict Regex → String → String
  mask_with [] masked = masked
  mask_with ((label, pattern) ∷ patterns) masked =
      mask_with patterns (pattern.sub ("[REDACTED:" <> py.upper label <> "]") masked)

  -- `mask(text)`
  unfoldable pub mask : String → String
  mask text = mask_with pii_patterns text

  -- `find_injection_markers`
  unfoldable pub find_injection_markers : String → List String
  find_injection_markers text = matching text prompt_injection_patterns

  -- What `re` documents of `sub`: where the pattern is not found, the text is returned unchanged.
  abbrev pub IsLawful : String × Regex → Type 0
  IsLawful entry =
      (text replacement : String)
      → entry.1.search text ≡ false
      → entry.1.sub replacement text ≡ text

  pub mask_with_unmatched :
      (patterns : Dict Regex) (text : String)
      → All IsLawful patterns
      → matching text patterns ≡ []
      → mask_with patterns text ≡ text
  unfolding matching mask_with
  mask_with_unmatched [] text laws h = refl
  mask_with_unmatched ((label, pattern) ∷ patterns) text laws h =
      elim (Bool-cases (pattern.search text)) [
        | inl found ↦ absurd (ground arith)
        | inr missed ↦
            ap (mask_with patterns) (laws.0 text _ missed)
            ∙ mask_with_unmatched patterns text laws.1 (ground arith)
      ]
