-- ===== src/Runtime.antt =====
-- What the program takes from the interpreter and from packages that are not in the repository.
use compliance_framework.Prelude.{List, Ratio, String, Bool, Result, ℤ}
use compliance_framework.Models.{Value}

-- A compiled pattern: `pattern.search(text)` as a truth value, and `pattern.sub(replacement, text)`.
pub record Regex : Type 0 where
  pub search : String → Bool
  pub sub : String → String → String

pub record Runtime : Type 0 where
  -- `repr` of a text
  pub repr : String → String
  -- `re.search(pattern, value, flags=re.IGNORECASE)` as a truth value; it raises `re.error` where the
  -- pattern does not compile.
  pub search : String → String → Result Bool
  -- `int(text)`, which may raise `ValueError`
  pub int_of : String → Result ℤ
  -- The truth value of an attribute that pydantic's `BaseModel` gives to each of its instances, and
  -- `False` for a name that is no attribute.
  pub inherited : String → Bool
  -- `text.strip()`
  pub strip : String → String
  -- `json.dumps(value, sort_keys=True, separators=(",", ":"))`
  pub dumps : Value → String
  -- `hashlib.sha256(text.encode("utf-8")).hexdigest()`
  pub sha256 : String → String
  -- `re.compile(pattern)`, for the patterns that are written in the program
  pub compile : String → Regex
  -- `text.upper()`
  pub upper : String → String
  -- `text.lower()`
  pub lower : String → String
  -- `shlex.join(words)`
  pub shlex_join : List String → String
  -- `f"{x:.2f}"` of the float nearest to a quotient
  pub two_digits : Ratio → String
