-- ===== src/Audit/WormLog/Tampering.antt =====
-- What it takes to change a log without being noticed: a collision of the hash function on its records.
use compliance_framework.Prelude.{
  ℕ, String, ◌<>◌, ◌≡◌, ◌≢◌, refl, sym, ◌∙◌, ap, subst, ◌⊎◌, inl, inr, Some, ◌==◌, eq_iff,
  Bool-cases, List, [], ◌∷◌, map, ok,
}
use Prim.Native.String.{count}
use mathlib.Core.List.{reverse, reverse_aux, reverse-reverse}
use text.Mathlib.TextLemmas.{append_inj}
use compliance_framework.Runtime.{Runtime}
use compliance_framework.Audit.Records.{AuditRecord}
use compliance_framework.Audit.WormLog.{
  Codec, genesis_hash, compute_record_hash, canonical, verify_chain,
}
use compliance_framework.Audit.WormLog.Chain.{
  Reads, Reads-unique, IsChain, last_hash, verified, verify_chain-valid_iff,
}

module _ (py : Runtime) where
  -- The text that a record's hash is made of.
  abbrev pub hashed : AuditRecord → String
  hashed r = r.prev_hash <> canonical py r

  abbrev pub Among : AuditRecord → List AuditRecord → Type 0
  Among r rs = Some (λ x. x ≡ r) rs

  -- The hash function fails on these two logs: a record of one and a record of the other are hashed as
  -- different texts and have one hash, or the hash of a record of theirs is the genesis hash.
  pub data Forged (rs ss : List AuditRecord) : Type 0 where
    collision :
        (r s : AuditRecord)
        → Among r rs
        → Among s ss
        → hashed r ≢ hashed s
        → py.sha256 (hashed r) ≡ py.sha256 (hashed s)
        → Forged rs ss
    preimage :
        (r : AuditRecord)
        → Among r rs ⊎ Among r ss
        → py.sha256 (hashed r) ≡ genesis_hash
        → Forged rs ss

  Forged-mono :
      (rs ss rs' ss' : List AuditRecord)
      → ((r : AuditRecord) → Among r rs → Among r rs')
      → ((r : AuditRecord) → Among r ss → Among r ss')
      → Forged rs ss
      → Forged rs' ss'
  Forged-mono rs ss rs' ss' f g (collision r s a b other same) =
      collision r s (f r a) (g s b) other same
  Forged-mono rs ss rs' ss' f g (preimage r (inl a) e) = preimage r (inl (f r a)) e
  Forged-mono rs ss rs' ss' f g (preimage r (inr b) e) = preimage r (inr (g r b)) e

  Among-reverse_aux :
      (r : AuditRecord) (rs acc : List AuditRecord)
      → Among r (reverse_aux rs acc)
      → Among r rs ⊎ Among r acc
  Among-reverse_aux r [] acc h = inr h
  Among-reverse_aux r (s ∷ rs) acc h = elim (Among-reverse_aux r rs (s ∷ acc) h) [
    | inl later ↦ inl (inr later)
    | inr (inl here) ↦ inl (inl here)
    | inr (inr there) ↦ inr there
  ]

  Among-reverse : (rs : List AuditRecord) (r : AuditRecord) → Among r (reverse rs) → Among r rs
  Among-reverse rs r h = elim (Among-reverse_aux r rs [] h) [
    | inl among ↦ among
    | inr none ↦ absurd none
  ]

  -- A chain read from its end: newest record first, with the hash that it ends with.
  abbrev EndsIn : List AuditRecord → String → Type 0
  EndsIn [] h = h ≡ genesis_hash
  EndsIn (r ∷ rs) h = (h ≡ py.sha256 (r.prev_hash <> canonical py r)) × EndsIn rs r.prev_hash

  chain-EndsIn :
      (rs acc : List AuditRecord) (h : String)
      → EndsIn acc h
      → IsChain py h rs
      → EndsIn (reverse_aux rs acc) (last_hash h rs)
  unfolding compute_record_hash
  chain-EndsIn [] acc h e c = e
  chain-EndsIn (r ∷ rs) acc h e ((same, hashed), c) =
      chain-EndsIn rs (r ∷ acc) r.record_hash
        (
          subst (λ p. r.record_hash ≡ py.sha256 (p <> canonical py r)) (sym same) hashed,
          subst (EndsIn acc) (sym same) e,
        )
        c

  abbrev contents : List AuditRecord → List String
  contents = map (canonical py)

  contents-reverse_aux :
      (rs acc : List AuditRecord)
      → contents (reverse_aux rs acc) ≡ reverse_aux (contents rs) (contents acc)
  contents-reverse_aux [] acc = refl
  contents-reverse_aux (r ∷ rs) acc = contents-reverse_aux rs (r ∷ acc)

  contents_of_reverse :
      (rs ss : List AuditRecord)
      → contents (reverse rs) ≡ contents (reverse ss)
      → contents rs ≡ contents ss
  contents_of_reverse rs ss e =
      sym (reverse-reverse (contents rs))
      ∙ ap reverse (sym (contents-reverse_aux rs []) ∙ e ∙ contents-reverse_aux ss [])
      ∙ reverse-reverse (contents ss)

  -- `hexdigest` of SHA-256 has 64 characters.
  module _ (sixty_four : (text : String) → count (py.sha256 text) ≡ 64) where
    EndsIn-count : (rs : List AuditRecord) (h : String) → EndsIn rs h → count h ≡ 64
    EndsIn-count [] h e = ap count e
    EndsIn-count (r ∷ rs) h e = ap count e.0 ∙ sixty_four _

    same_contents :
        (rs ss : List AuditRecord) (h : String)
        → EndsIn rs h
        → EndsIn ss h
        → (contents rs ≡ contents ss) ⊎ Forged rs ss
    same_contents [] [] h a b = inl refl
    same_contents [] (s ∷ ss) h a b = inr (preimage s (inr (inl refl)) (sym b.0 ∙ a))
    same_contents (r ∷ rs) [] h a b = inr (preimage r (inl (inl refl)) (sym a.0 ∙ b))
    same_contents (r ∷ rs) (s ∷ ss) h a b =
        let left = hashed r in
        let right = hashed s in
        elim (Bool-cases (left == right)) [
          | inl same ↦
              let (prevs, texts) =
                append_inj ((eq_iff left right).0 same)
                  (EndsIn-count rs _ a.1 ∙ sym (EndsIn-count ss _ b.1)) in
              earlier texts
                (same_contents rs ss r.prev_hash a.1 (subst (EndsIn ss) (sym prevs) b.1))
          | inr other ↦ inr (
              collision r s (inl refl) (inl refl) (λ e. cc ((eq_iff left right).1 e))
                (sym a.0 ∙ b.0))
        ]
      where
        earlier :
            canonical py r ≡ canonical py s
            → (contents rs ≡ contents ss) ⊎ Forged rs ss
            → (contents (r ∷ rs) ≡ contents (s ∷ ss)) ⊎ Forged (r ∷ rs) (s ∷ ss)
        earlier e (inl same) = inl (cc)
        earlier e (inr f) =
            inr (Forged-mono rs ss (r ∷ rs) (s ∷ ss) (λ x h. inr h) (λ x h. inr h) f)

    -- Tamper evidence. If `verify_chain` accepts two files and the two end with one hash, then they
    -- hold the same canonical texts of records, in the same order; or a record of one file and a
    -- record of the other are hashed as different texts and have one hash; or a record of one of the
    -- files has the genesis hash.
    pub tamper_evident :
        (codec : Codec) (lines lines' : List String) (rs ss : List AuditRecord) (n m : ℕ)
        → Reads py codec lines rs
        → Reads py codec lines' ss
        → verify_chain py codec lines ≡ ok (verified n)
        → verify_chain py codec lines' ≡ ok (verified m)
        → last_hash genesis_hash rs ≡ last_hash genesis_hash ss
        → (contents rs ≡ contents ss) ⊎ Forged rs ss
    tamper_evident codec lines lines' rs ss n m a b v w e =
        let (rs', a', c, _) = (verify_chain-valid_iff py codec lines n).0 v in
        let (ss', b', d, _) = (verify_chain-valid_iff py codec lines' m).0 w in
        let c' = subst (IsChain py genesis_hash) (Reads-unique a' a) c in
        let d' = subst (IsChain py genesis_hash) (Reads-unique b' b) d in
        elim (same_contents (reverse rs) (reverse ss) (last_hash genesis_hash rs)
          (chain-EndsIn rs [] genesis_hash refl c')
          (subst (EndsIn (reverse ss)) (sym e) (chain-EndsIn ss [] genesis_hash refl d'))) [
            | inl same ↦ inl (contents_of_reverse rs ss same)
            | inr f ↦ inr (
                Forged-mono (reverse rs) (reverse ss) rs ss (Among-reverse rs) (Among-reverse ss) f)
          ]
