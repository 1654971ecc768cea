-- ===== src/Identity/Tests.antt =====
-- A session token, issued at 100 for 900 seconds.
use compliance_framework.Prelude.{
  true, ◌≡◌, refl, arith, str_int, ◌↔◌, ◌==◌, ok, raise, ℤ, pos, Kind, if◌then◌else◌,
}
use compliance_framework.Models.{ExecutionContext}
use compliance_framework.Runtime.{Runtime}
use compliance_framework.Fixture.{runtime, engineer, constant_hash}
use compliance_framework.Identity.SessionToken.{
  Hmac, Moment, Issuer, Parts, at_dot, sign, issue, verify_token,
}
use compliance_framework.Identity.SessionToken.Dots.{IsDotless}
use compliance_framework.Identity.SessionToken.Binding.{
  joined, IsAccepted, verify_token_iff, verify_token-issue,
}

abbrev hmac : Hmac
hmac = record { hexdigest = λ secret message. constant_hash; compare_digest = λ a b. ok (a == b) }

-- The runtime, with an `int` that reads the expiry.
abbrev reading : Runtime
reading = record runtime {
  int_of = λ text.
      if text == "1000"
      then ok (pos 1000)
      else raise (record { kind = Kind.other_error; message = "not a number" });
}

abbrev issuer : Issuer
issuer = record { secret = "key"; ttl_seconds = 900 }

-- 0.7 seconds after the second 100, when a token is issued for 900 seconds.
abbrev issued : Moment
issued = record { seconds = 100; rest = 7 }

-- Just before the second 1000.
abbrev late : Moment
late = record { seconds = 999; rest = 5 }

abbrev soon : Moment
soon = record { seconds = 5; rest = 0 }

engineer-IsDotless : IsDotless engineer.session_id × IsDotless engineer.agent_id
unfolding at_dot
engineer-IsDotless = (refl, refl)

verify_token-issue_example :
    verify_token reading hmac issuer (issue reading hmac issuer engineer issued) engineer late
    ≡ ok true
unfolding sign str_int
verify_token-issue_example =
    verify_token-issue reading hmac issuer engineer issued late engineer-IsDotless.0
      engineer-IsDotless.1 refl refl

verify_token_iff_example :
    (verify_token reading hmac issuer "session-1.agent-1.1000.abab" engineer soon ≡ ok true) ↔ (
      (p : Parts) × (expiry : ℤ) × ("session-1.agent-1.1000.abab" ≡ joined reading hmac p)
      × IsAccepted reading hmac issuer engineer soon p expiry)
verify_token_iff_example =
    verify_token_iff reading hmac issuer "session-1.agent-1.1000.abab" engineer soon

abbrev dotted : ExecutionContext
dotted = record engineer { agent_id = "agent.1" }

dotted_has_dot : ¬ (IsDotless dotted.session_id × IsDotless dotted.agent_id)
unfolding at_dot
dotted_has_dot h = ground arith
