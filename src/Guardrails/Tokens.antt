-- ===== src/Guardrails/Tokens.antt =====
-- `_TOKEN_RE.findall` of guardrails/semantic.py, and Python's sets of texts, as lists that hold no
-- text twice.
pub mod Sets
pub mod Words
use Prim.Native.Char.{Char, code}
use compliance_framework.Prelude.{
  String, Bool, not, ◌&&◌, ◌||◌, leb, member, List, [], ◌∷◌, ◌++◌, filter, if◌then◌else◌,
}

-- `[a-z0-9]`
abbrev pub is_token_char : Char → Bool
is_token_char c =
    (leb b'a' (code c) && leb (code c) b'z') || (leb b'0' (code c) && leb (code c) b'9')

-- Adds a run to the runs behind it, unless it is empty.
abbrev pub flush : String → List String → List String
flush String.[] rest = rest
flush (String.◌∷◌ c s) rest = String.◌∷◌ c s ∷ rest

-- The run of token characters that a text begins with, and the runs that come after it.
unfoldable pub runs : String → String × List String
runs String.[] = (String.[], [])
runs (String.◌∷◌ c s) =
    let (head, rest) = runs s in
    if is_token_char c then (String.◌∷◌ c head, rest) else (String.[], flush head rest)

-- `_TOKEN_RE.findall(text)`: the longest runs, from left to right
unfoldable pub findall : String → List String
findall text = let (head, rest) = runs text in flush head rest

-- `set(xs)`
unfoldable pub to_set : List String → List String
to_set [] = []
to_set (x ∷ xs) = let rest = to_set xs in if member x rest then rest else x ∷ rest

-- `a & b`
unfoldable pub intersection : List String → List String → List String
intersection a b = filter (λ x. member x b) a

-- `a | b`
unfoldable pub union : List String → List String → List String
union a b = a ++ filter (λ x. not (member x a)) b
