-- ===== src/Audit/WormLog/Chain.antt =====
-- What a chain of records is, and that `verify_chain` recognises exactly the chains.
use compliance_framework.Prelude.{
  ℕ, suc, ◌+◌, String, true, false, ◌≡◌, refl, ◌∙◌, ap, ◌↔◌, inl, inr, none, some, eq_iff,
  Bool-cases, nonempty, List, [], ◌∷◌, ◌++◌, length, ok, Result-cases, arith,
}
use compliance_framework.Runtime.{Runtime}
use compliance_framework.Audit.Records.{AuditRecord}
use compliance_framework.Audit.WormLog.{
  Codec, ChainVerificationResult, genesis_hash, compute_record_hash, continues, verify_from,
  verify_chain,
}

-- The records that the lines hold, blank lines left out.
pub data Reads (py : Runtime) (codec : Codec) : List String → List AuditRecord → Type 0 where
  done : Reads py codec [] []
  blank :
      {line : String} {lines : List String} {rs : List AuditRecord}
      → nonempty (py.strip line) ≡ false
      → Reads py codec lines rs
      → Reads py codec (line ∷ lines) rs
  next :
      {line : String} {lines : List String} {r : AuditRecord} {rs : List AuditRecord}
      → nonempty (py.strip line) ≡ true
      → codec.validate_json (py.strip line) ≡ ok r
      → Reads py codec lines rs
      → Reads py codec (line ∷ lines) (r ∷ rs)

module _ (py : Runtime) where
  -- The record carries on a chain that ended with the hash.
  abbrev pub Continues : String → AuditRecord → Type 0
  Continues prev r = (r.prev_hash ≡ prev) × (r.record_hash ≡ compute_record_hash py prev r)

  abbrev pub IsChain : String → List AuditRecord → Type 0
  IsChain prev [] = Unit
  IsChain prev (r ∷ rs) = Continues prev r × IsChain r.record_hash rs

  pub continues_iff :
      (prev : String) (r : AuditRecord) → (continues py prev r ≡ true) ↔ Continues prev r
  unfolding continues
  continues_iff prev r =
      ground (arith, eq_iff r.prev_hash prev, eq_iff r.record_hash (compute_record_hash py prev r))

pub Reads-unique :
    {py : Runtime} {codec : Codec} {lines : List String} {rs ss : List AuditRecord}
    → Reads py codec lines rs
    → Reads py codec lines ss
    → rs ≡ ss
Reads-unique done done = refl
Reads-unique (blank e a) (blank f b) = Reads-unique a b
Reads-unique (blank e a) (next f p b) = absurd (cc)
Reads-unique (next e q a) (blank f b) = absurd (cc)
Reads-unique (next {r} e q a) (next {r = s} f p b) =
    let same : r ≡ s = ground arith in cc (same, Reads-unique a b)

-- The hash that a chain ends with.
abbrev pub last_hash : String → List AuditRecord → String
last_hash prev [] = prev
last_hash prev (r ∷ rs) = last_hash r.record_hash rs

pub last_hash_join :
    (prev : String) (rs ss : List AuditRecord)
    → last_hash prev (rs ++ ss) ≡ last_hash (last_hash prev rs) ss
last_hash_join prev [] ss = refl
last_hash_join prev (r ∷ rs) ss = last_hash_join r.record_hash rs ss

pub IsChain-join :
    (py : Runtime) (prev : String) (rs ss : List AuditRecord)
    → IsChain py prev rs
    → IsChain py (last_hash prev rs) ss
    → IsChain py prev (rs ++ ss)
IsChain-join py prev [] ss h k = k
IsChain-join py prev (r ∷ rs) ss h k = (h.0, IsChain-join py r.record_hash rs ss h.1 k)

pub IsChain-split :
    (py : Runtime) (prev : String) (rs ss : List AuditRecord)
    → IsChain py prev (rs ++ ss)
    → IsChain py prev rs × IsChain py (last_hash prev rs) ss
IsChain-split py prev [] ss h = (tt, h)
IsChain-split py prev (r ∷ rs) ss h =
    let (first, more) = IsChain-split py r.record_hash rs ss h.1 in ((h.0, first), more)

pub last_hash-append :
    (prev : String) (rs : List AuditRecord) (r : AuditRecord)
    → last_hash prev (rs ++ r ∷ []) ≡ r.record_hash
last_hash-append prev rs r = last_hash_join prev rs (r ∷ [])

pub IsChain-append :
    (py : Runtime) (prev : String) (rs : List AuditRecord) (r : AuditRecord)
    → IsChain py prev rs
    → Continues py (last_hash prev rs) r
    → IsChain py prev (rs ++ r ∷ [])
IsChain-append py prev rs r h c = IsChain-join py prev rs (r ∷ []) h (c, tt)

abbrev pub verified : ℕ → ChainVerificationResult
verified count = record { valid = true; record_count = count; first_broken_index = none }

abbrev pub broken : ℕ → ℕ → ChainVerificationResult
broken count index = record { valid = false; record_count = count; first_broken_index = some index }

module _ (py : Runtime) (codec : Codec) where
  pub verify_from-chain :
      {lines : List String} {rs : List AuditRecord}
      → Reads py codec lines rs
      → (prev : String) (count index : ℕ) → IsChain py prev rs
      → verify_from py codec prev count index lines ≡ ok (verified (count + length rs))
  unfolding verify_from
  verify_from-chain done prev count index h = ground arith
  verify_from-chain (blank {line} empty reads) prev count index h =
      rw empty (verify_from-chain reads prev count (suc index) h)
  verify_from-chain (next {r} {rs} full parsed reads) prev count index (c, h) =
      rw (full, parsed, (continues_iff py prev r).1 c)
        (verify_from-chain reads r.record_hash (suc count) (suc index) h
          ∙ ap (λ n. ok (verified n)) (omega arith))

  verify_from-valid :
      (lines : List String) (prev : String) (count index : ℕ) (v : ChainVerificationResult)
      → verify_from py codec prev count index lines ≡ ok v
      → v.valid ≡ true
      → (rs : List AuditRecord) × Reads py codec lines rs
        × IsChain py prev rs
        × (v ≡ verified (count + length rs))
  unfolding verify_from
  verify_from-valid [] prev count index v h t = ([], done, tt, ground arith)
  verify_from-valid (line ∷ lines) prev count index v h t =
      elim (Bool-cases (nonempty (py.strip line))) [
        | inr empty ↦
            let (rs, reads, chain, e) =
              verify_from-valid lines prev count (suc index) v (ground arith) t in
            (rs, blank empty reads, chain, e)
        | inl full ↦ elim (Result-cases (codec.validate_json (py.strip line))) [
          | inr (e, failed) ↦ absurd (ground arith)
          | inl (r, parsed) ↦ elim (Bool-cases (continues py prev r)) [
            | inr stops ↦ absurd (ground arith)
            | inl goes ↦
                let (rs, reads, chain, e) =
                  verify_from-valid lines r.record_hash (suc count) (suc index) v (ground arith)
                    t in
                (
                  r ∷ rs,
                  next full parsed reads,
                  ((continues_iff py prev r).0 goes, chain),
                  e ∙ ap verified (omega arith),
                )
          ]
        ]
      ]

  -- `verify_chain` answers "valid" with a count exactly when the lines hold that many records and
  -- each record has the hash of the one before it (of the genesis hash, the first) as its previous
  -- hash, and the hash of its own content as its hash.
  pub verify_chain-valid_iff :
      (lines : List String) (count : ℕ)
      → (verify_chain py codec lines ≡ ok (verified count)) ↔ (
          (rs : List AuditRecord) × Reads py codec lines rs
          × IsChain py genesis_hash rs
          × (length rs ≡ count))
  unfolding verify_chain
  verify_chain-valid_iff lines count = (
    λ h.
        let (rs, reads, chain, e) =
          verify_from-valid lines genesis_hash 0 0 (verified count) h refl in
        (rs, reads, chain, ground arith),
    λ (rs, reads, chain, e).
        verify_from-chain reads genesis_hash 0 0 chain ∙ ap (λ n. ok (verified n)) (omega arith),
  )
