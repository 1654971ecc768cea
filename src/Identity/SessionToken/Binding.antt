-- ===== src/Identity/SessionToken/Binding.antt =====
-- Which tokens are accepted, and for whom.
use compliance_framework.Identity.SessionToken.Dots.{
  IsDotless, at_dot-append, at_dot-some, str_nat-IsDotless,
}
use compliance_framework.Prelude.{
  String, ◌<>◌, true, ◌≡◌, ◌≢◌, ap, subst, ◌∙◌, ◌↔◌, inl, inr, some, eq_iff, eq_refl, leb, ◌+◌,
  Option-cases, Result-cases, leb_ℤ_iff, ◌≤ℤ◌, ok, ℤ, pos, str_int, arith,
}
use compliance_framework.Models.{ExecutionContext}
use compliance_framework.Runtime.{Runtime}
use compliance_framework.Identity.SessionToken.{
  Hmac, Moment, round_up, Issuer, Parts, at_dot, split, sign, issue, verify_parts, verify_token,
}

module _ (py : Runtime) (hmac : Hmac) where
  -- The text of a token from its four parts.
  abbrev pub joined : Parts → String
  joined p = p.session_id <> "." <> p.agent_id <> "." <> p.expiry_str <> "." <> p.signature

  pub record IsSplit (p : Parts) : Type 0 where
    pub session_id : IsDotless p.session_id
    pub agent_id : IsDotless p.agent_id
    pub expiry_str : IsDotless p.expiry_str

  split-joined : (p : Parts) → IsSplit p → split (joined p) ≡ some p
  unfolding split
  split-joined p h =
      let one =
        at_dot-append p.session_id (p.agent_id <> "." <> p.expiry_str <> "." <> p.signature)
          h.session_id in
      let two = at_dot-append p.agent_id (p.expiry_str <> "." <> p.signature) h.agent_id in
      let three = at_dot-append p.expiry_str p.signature h.expiry_str in
      ground (arith, one, two, three)

  split-some :
      (credential : String) (p : Parts)
      → split credential ≡ some p
      → (credential ≡ joined p) × IsSplit p
  unfolding split
  split-some credential p h = elim (Option-cases (at_dot credential)) [
    | inl missing ↦ absurd (ground arith)
    | inr ((a, s), one) ↦ elim (Option-cases (at_dot s)) [
      | inl missing ↦ absurd (ground arith)
      | inr ((b, t), two) ↦ elim (Option-cases (at_dot t)) [
        | inl missing ↦ absurd (ground arith)
        | inr ((c, u), three) ↦
            let (e, x) = at_dot-some credential a s one in
            let (f, y) = at_dot-some s b t two in
            let (g, z) = at_dot-some t c u three in
            let q : Parts = record {
              session_id = a;
              agent_id = b;
              expiry_str = c;
              signature = u;
            } in
            let same : q ≡ p = ground arith in
            let whole : credential ≡ joined q =
              e ∙ ap (λ r. a <> "." <> r) (f ∙ ap (λ r. b <> "." <> r) g) in
            subst (λ r. (credential ≡ joined r) × IsSplit r) same
              (whole, record { session_id = x; agent_id = y; expiry_str = z })
      ]
    ]
  ]

  -- What `verify` demands of a token with these parts and this expiry.
  pub record IsAccepted (issuer : Issuer) (context : ExecutionContext) (now : Moment) (p : Parts)
      (expiry : ℤ) : Type 0 where
    pub split : IsSplit p
    pub session : p.session_id ≡ context.session_id
    pub agent : p.agent_id ≡ context.agent_id
    pub parsed : py.int_of p.expiry_str ≡ ok expiry
    pub alive : pos (round_up now) ≤ℤ expiry
    pub signed :
        hmac.compare_digest p.signature (sign py hmac issuer.secret p.session_id p.agent_id expiry)
        ≡ ok true

  verify_parts_iff :
      (issuer : Issuer) (p : Parts) (expiry : ℤ) (context : ExecutionContext) (now : Moment)
      → (verify_parts py hmac issuer p expiry context now ≡ ok true) ↔ (
          (p.session_id ≡ context.session_id)
          × (p.agent_id ≡ context.agent_id)
          × (pos (round_up now) ≤ℤ expiry)
          × (hmac.compare_digest p.signature
                (sign py hmac issuer.secret p.session_id p.agent_id expiry)
              ≡ ok true))
  unfolding verify_parts
  verify_parts_iff issuer p expiry context now = ground (
    arith,
    eq_iff p.session_id context.session_id,
    eq_iff p.agent_id context.agent_id,
    leb_ℤ_iff (pos (round_up now)) expiry,
  )

  -- A session token is bound to its session, its agent and its expiry: `verify` accepts a credential
  -- exactly when it is four parts joined by dots, the first three of them without a dot, the first two
  -- are the context's own session and agent, the third is an integer that is not past, and the fourth
  -- compares equal to the signature of these three under the secret.
  pub verify_token_iff :
      (issuer : Issuer) (credential : String) (context : ExecutionContext) (now : Moment)
      → (verify_token py hmac issuer credential context now ≡ ok true) ↔ (
          (p : Parts) × (expiry : ℤ) × (credential ≡ joined p)
          × IsAccepted issuer context now p expiry)
  unfolding verify_token
  verify_token_iff issuer credential context now = (
    λ h. elim (Option-cases (split credential)) [
      | inl missing ↦ absurd (ground arith)
      | inr (p, found) ↦ elim (Result-cases (py.int_of p.expiry_str)) [
        | inr (e, failed) ↦ absurd (ground arith)
        | inl (expiry, parsed) ↦
            let (whole, parts) = split-some credential p found in
            let (session, agent, alive, signed) =
              (verify_parts_iff issuer p expiry context now).0 (ground arith) in
            (
              p,
              expiry,
              whole,
              record {
                split = parts;
                session = session;
                agent = agent;
                parsed = parsed;
                alive = alive;
                signed = signed;
              },
            )
      ]
    ],
    λ (p, expiry, whole, a).
        let found = ap split whole ∙ split-joined p a.split in
        let accepted =
          (verify_parts_iff issuer p expiry context now).1
            (a.session, a.agent, a.alive, a.signed) in
        let parsed = a.parsed in ground (arith, found, accepted, parsed),
  )

  -- A token for a session or an agent with a dot in its name is never accepted, not even the one that
  -- `issue` makes.
  pub verify_token_dotted :
      (issuer : Issuer) (credential : String) (context : ExecutionContext) (now : Moment)
      → ¬ (IsDotless context.session_id × IsDotless context.agent_id)
      → verify_token py hmac issuer credential context now ≢ ok true
  verify_token_dotted issuer credential context now dotted h =
      let (p, expiry, whole, a) = (verify_token_iff issuer credential context now).0 h in
      dotted
        (subst IsDotless a.session a.split.session_id, subst IsDotless a.agent a.split.agent_id)

  -- Round trip. A token that was issued to a context without dots in its session and agent is accepted
  -- for it up to the whole second in which it was issued plus the time to live, and not after that, if
  -- `int` reads back what `str` makes of the expiry, and `compare_digest` finds the signature equal to
  -- itself.
  pub verify_token-issue :
      (issuer : Issuer) (context : ExecutionContext) (issued now : Moment)
      → IsDotless context.session_id
      → IsDotless context.agent_id
      → py.int_of (str_int (pos (issued.seconds + issuer.ttl_seconds)))
        ≡ ok (pos (issued.seconds + issuer.ttl_seconds))
      → hmac.compare_digest
          (sign py hmac issuer.secret context.session_id context.agent_id
            (pos (issued.seconds + issuer.ttl_seconds)))
          (sign py hmac issuer.secret context.session_id context.agent_id
            (pos (issued.seconds + issuer.ttl_seconds)))
        ≡ ok true
      → verify_token py hmac issuer (issue py hmac issuer context issued) context now
        ≡ ok (leb (round_up now) (issued.seconds + issuer.ttl_seconds))
  unfolding verify_token issue verify_parts str_int
  verify_token-issue issuer context issued now session agent reads equal =
      let expiry = issued.seconds + issuer.ttl_seconds in
      let p : Parts = record {
        session_id = context.session_id;
        agent_id = context.agent_id;
        expiry_str = str_int (pos expiry);
        signature = sign py hmac issuer.secret context.session_id context.agent_id (pos expiry);
      } in
      let found = split-joined p (record {
        session_id = session;
        agent_id = agent;
        expiry_str = str_nat-IsDotless expiry;
      }) in
      let same_session = eq_refl context.session_id in
      let same_agent = eq_refl context.agent_id in
      ground (arith, found, reads, equal, same_session, same_agent)
