-- ===== src/Policy/Gates.antt =====
-- Texts as the engines take them apart: `gate.partition("=")` and the excerpt of a value.
use Prim.Native.Char.{code}
use Prim.Native.String.{[], ◌∷◌, count}
use compliance_framework.Prelude.{ℕ, zero, suc, String, ◌<>◌, ltb, eqb, if◌then◌else◌}

-- `gate.partition("=")`, without the separator
unfoldable pub partition : String → String × String
partition [] = ([], [])
partition (c ∷ s) =
    let (name, value) = partition s in if eqb (code c) b'=' then ([], s) else (c ∷ name, value)

-- `s[:n]`
unfoldable pub take : ℕ → String → String
take zero s = []
take (suc n) [] = []
take (suc n) (c ∷ s) = c ∷ take n s

unfoldable pub excerpt : String → String
unfolding take
excerpt value = take 40 value <> (if ltb 40 (count value) then "..." else "")
