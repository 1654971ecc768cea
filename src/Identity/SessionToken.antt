-- ===== src/Identity/SessionToken.antt =====
-- identity/session_token.py. A secret is a text.
pub mod Dots
pub mod Binding
use Prim.Native.Char.{code}
use Prim.Native.String.{[], ◌∷◌}
use compliance_framework.Prelude.{
  ℕ, zero, suc, ◌+◌, String, ◌<>◌, Bool, true, false, Option, none, some, ◌==◌, ◌&&◌, ltb, eqb,
  leb_ℤ, List, Result, ok, raise, ℤ, pos, str_int, if◌then◌else◌,
}
use compliance_framework.Models.{ExecutionContext}
use compliance_framework.Runtime.{Runtime}

-- `hmac.new(secret, message, sha256).hexdigest()` and `hmac.compare_digest(a, b)`, which raises
-- `TypeError` for a text that is not ASCII.
pub record Hmac : Type 0 where
  pub hexdigest : String → String → String
  pub compare_digest : String → String → Result Bool

-- `time.time()`, a float: whole seconds, and the rest of it in units of the smallest float. The source
-- adds the time to live to it; the sum is exact here.
pub record Moment : Type 0 where
  pub seconds : ℕ
  pub rest : ℕ

-- A moment is after a whole number of seconds exactly when it is so rounded up.
abbrev pub round_up : Moment → ℕ
round_up t = if eqb t.rest 0 then t.seconds else suc t.seconds

-- `SessionTokenIssuer`
pub record Issuer : Type 0 where
  pub secret : String
  pub ttl_seconds : ℕ

-- A text at its first dot, `none` if it has none.
unfoldable pub at_dot : String → Option (String × String)
at_dot [] = none
at_dot (c ∷ s) =
    let rest = at_dot s in
    if eqb (code c) b'.'
    then some ([], s)
    else (elim rest [ none ↦ none | some (a, b) ↦ some (c ∷ a, b) ])

-- The four parts of `credential.split(".", 3)`
pub record Parts : Type 0 where
  pub session_id : String
  pub agent_id : String
  pub expiry_str : String
  pub signature : String

-- `credential.split(".", 3)` where it has four parts; with fewer, the assignment raises `ValueError`.
unfoldable pub split : String → Option Parts
split credential = elim (at_dot credential) [
  | none ↦ none
  | some (session_id, s) ↦ elim (at_dot s) [
    | none ↦ none
    | some (agent_id, t) ↦ elim (at_dot t) [
      | none ↦ none
      | some (expiry_str, signature) ↦ some (record {
        session_id = session_id;
        agent_id = agent_id;
        expiry_str = expiry_str;
        signature = signature;
      })
    ]
  ]
]

module _ (py : Runtime) (hmac : Hmac) where
  unfoldable pub sign : String → String → String → ℤ → String
  sign secret session_id agent_id expiry_epoch =
      hmac.hexdigest secret (session_id <> ":" <> agent_id <> ":" <> str_int expiry_epoch)

  unfoldable pub issue : Issuer → ExecutionContext → Moment → String
  issue issuer context now =
      let expiry_epoch = pos (now.seconds + issuer.ttl_seconds) in
      context.session_id
      <> "."
      <> context.agent_id
      <> "."
      <> str_int expiry_epoch
      <> "."
      <> sign issuer.secret context.session_id context.agent_id expiry_epoch

  -- `verify` from its test of the identity
  unfoldable pub verify_parts : Issuer → Parts → ℤ → ExecutionContext → Moment → Result Bool
  verify_parts issuer p expiry_epoch context now =
      if p.session_id == context.session_id && p.agent_id == context.agent_id
      then (if leb_ℤ (pos (round_up now)) expiry_epoch
          then hmac.compare_digest p.signature
              (sign issuer.secret p.session_id p.agent_id expiry_epoch)
          else ok false)
      else ok false

  unfoldable pub verify_token : Issuer → String → ExecutionContext → Moment → Result Bool
  verify_token issuer credential context now = elim (split credential) [
    | none ↦ ok false
    | some p ↦ elim (py.int_of p.expiry_str) [
      | raise e ↦ ok false
      | ok expiry_epoch ↦ verify_parts issuer p expiry_epoch context now
    ]
  ]
