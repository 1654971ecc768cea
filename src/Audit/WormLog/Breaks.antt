-- ===== src/Audit/WormLog/Breaks.antt =====
-- Where `verify_chain` says that a log is broken.
use compliance_framework.Prelude.{
  ℕ, suc, ◌+◌, String, true, false, ◌≡◌, refl, ◌∙◌, ap, ◌↔◌, inl, inr, Bool-cases, nonempty, List,
  [], ◌∷◌, ◌++◌, length, ok, Result-cases, arith,
}
use compliance_framework.Runtime.{Runtime}
use compliance_framework.Audit.Records.{AuditRecord}
use compliance_framework.Audit.WormLog.{
  Codec, ChainVerificationResult, genesis_hash, continues, verify_from, verify_chain,
}
use compliance_framework.Audit.WormLog.Chain.{
  Reads, done, blank, next, Continues, IsChain, continues_iff, last_hash, broken,
}

module _ (py : Runtime) (codec : Codec) where
  -- Lines that hold a chain of records, then a line whose record does not carry it on.
  pub record Break (prev : String) (lines : List String) : Type 0 where
    pub before : List String
    pub line : String
    pub after : List String
    pub records : List AuditRecord
    pub culprit : AuditRecord
    pub split : lines ≡ before ++ line ∷ after
    pub reads : Reads py codec before records
    pub chain : IsChain py prev records
    pub full : nonempty (py.strip line) ≡ true
    pub parsed : codec.validate_json (py.strip line) ≡ ok culprit
    pub stops : ¬ Continues py (last_hash prev records) culprit

  pub verify_from-stop :
      {before : List String} {records : List AuditRecord}
      → Reads py codec before records
      → (prev : String) (count index : ℕ) (line : String) (after : List String)
        (culprit : AuditRecord)
      → IsChain py prev records
      → nonempty (py.strip line) ≡ true
      → codec.validate_json (py.strip line) ≡ ok culprit
      → ¬ Continues py (last_hash prev records) culprit
      → verify_from py codec prev count index (before ++ line ∷ after)
        ≡ ok (broken (count + length records) (index + length before))
  unfolding verify_from
  verify_from-stop done prev count index line after culprit chain full parsed stops =
      elim (Bool-cases (continues py prev culprit)) [
        | inl goes ↦ absurd (stops ((continues_iff py prev culprit).0 goes))
        | inr no_more ↦ rw (full, parsed, no_more) (ap (λ v. ok v) (ground arith))
      ]
  verify_from-stop (blank empty reads) prev count index line after culprit chain full parsed stops =
      rw empty (
        verify_from-stop reads prev count (suc index) line after culprit chain full parsed stops
        ∙ ap (λ v. ok v) (ground arith))
  verify_from-stop (next {r} {rs} used read reads) prev count index line after culprit (c, chain)
        full parsed stops =
      rw (used, read, (continues_iff py prev r).1 c)
        (verify_from-stop reads r.record_hash (suc count) (suc index) line after culprit chain full
            parsed stops
          ∙ ap (λ v. ok v) (ground arith))

  abbrev after_blank :
      {prev : String} {lines : List String} (line : String)
      → nonempty (py.strip line) ≡ false
      → Break prev lines
      → Break prev (line ∷ lines)
  after_blank line empty b = record {
    before = line ∷ b.before;
    line = b.line;
    after = b.after;
    records = b.records;
    culprit = b.culprit;
    split = ap (◌∷◌ line) b.split;
    reads = blank empty b.reads;
    chain = b.chain;
    full = b.full;
    parsed = b.parsed;
    stops = b.stops;
  }

  abbrev after_record :
      {prev : String} {lines : List String} (line : String) (r : AuditRecord)
      → nonempty (py.strip line) ≡ true
      → codec.validate_json (py.strip line) ≡ ok r
      → Continues py prev r
      → Break r.record_hash lines
      → Break prev (line ∷ lines)
  after_record line r full parsed c b = record {
    before = line ∷ b.before;
    line = b.line;
    after = b.after;
    records = r ∷ b.records;
    culprit = b.culprit;
    split = ap (◌∷◌ line) b.split;
    reads = next full parsed b.reads;
    chain = (c, b.chain);
    full = b.full;
    parsed = b.parsed;
    stops = b.stops;
  }

  abbrev StopsAt : String → ℕ → ℕ → List String → ChainVerificationResult → Type 0
  StopsAt prev count index lines v =
      (b : Break prev lines) × (v ≡ broken (count + length b.records) (index + length b.before))

  verify_from-break :
      (lines : List String) (prev : String) (count index : ℕ) (v : ChainVerificationResult)
      → verify_from py codec prev count index lines ≡ ok v
      → v.valid ≡ false
      → StopsAt prev count index lines v
  unfolding verify_from
  verify_from-break [] prev count index v h f = absurd (ground arith)
  verify_from-break (line ∷ lines) prev count index v h f =
      elim (Bool-cases (nonempty (py.strip line))) [
        | inr empty ↦
            let (b, e) = verify_from-break lines prev count (suc index) v (ground arith) f in
            (after_blank line empty b, e ∙ ground arith)
        | inl full ↦ elim (Result-cases (codec.validate_json (py.strip line))) [
          | inr (e, failed) ↦ absurd (ground arith)
          | inl (r, parsed) ↦ elim (Bool-cases (continues py prev r)) [
            | inl goes ↦
                let (b, e) =
                  verify_from-break lines r.record_hash (suc count) (suc index) v (ground arith)
                    f in
                (
                  after_record line r full parsed ((continues_iff py prev r).0 goes) b,
                  e ∙ ground arith,
                )
            | inr stops ↦ (
              record {
                before = [];
                line = line;
                after = lines;
                records = [];
                culprit = r;
                split = refl;
                reads = done;
                chain = tt;
                full = full;
                parsed = parsed;
                stops = λ c. cc ((continues_iff py prev r).1 c);
              },
              ground arith,
            )
          ]
        ]
      ]

  -- `verify_chain` answers "invalid" exactly when the file splits into lines that hold a chain, and a
  -- line whose record does not carry the chain on; its count is the number of records before that
  -- line, and its index that of the line.
  pub verify_chain-broken_iff :
      (lines : List String) (count index : ℕ)
      → (verify_chain py codec lines ≡ ok (broken count index))
        ↔ ((b : Break genesis_hash lines) × (length b.records ≡ count) × (length b.before ≡ index))
  unfolding verify_chain
  verify_chain-broken_iff lines count index = (
    λ h.
        let (b, e) = verify_from-break lines genesis_hash 0 0 (broken count index) h refl in
        (b, ground arith, ground arith),
    λ (b, n, i). rw b.split (
        verify_from-stop b.reads genesis_hash 0 0 b.line b.after b.culprit b.chain b.full b.parsed
          b.stops
        ∙ ap (λ v. ok v) (ground arith)),
  )
