-- ===== src/Audit/WormLog/Altering.antt =====
-- What `verify_chain` says of a log in which one line was changed, as the demos change one.
use compliance_framework.Prelude.{
  ℕ, String, true, ◌≡◌, ◌≢◌, refl, sym, ◌∙◌, subst, inl, inr, Bool-cases, nonempty, List, ◌∷◌, ◌++◌,
  length, ok,
}
use compliance_framework.Runtime.{Runtime}
use compliance_framework.Audit.Records.{AuditRecord}
use compliance_framework.Audit.WormLog.{
  Codec, genesis_hash, compute_record_hash, continues, verify_chain,
}
use compliance_framework.Audit.WormLog.Chain.{
  Reads, done, blank, next, IsChain, IsChain-split, continues_iff, last_hash, verified, broken,
  verify_chain-valid_iff,
}
use compliance_framework.Audit.WormLog.Breaks.{verify_chain-broken_iff}

module _ (py : Runtime) (codec : Codec) where
  -- The records of a file, split at a line.
  Reads-at :
      {before : List String} {rs all : List AuditRecord}
      → Reads py codec before rs
      → (line : String) (after : List String) (r : AuditRecord) → nonempty (py.strip line) ≡ true
      → codec.validate_json (py.strip line) ≡ ok r
      → Reads py codec (before ++ line ∷ after) all
      → (ss : List AuditRecord) × (all ≡ rs ++ r ∷ ss)
  Reads-at done line after r full parsed (blank empty more) = absurd (cc)
  Reads-at done line after r full parsed (next {r = q} {rs = ss} f p more) = (ss, cc)
  Reads-at (blank e reads) line after r full parsed (blank e' more) =
      Reads-at reads line after r full parsed more
  Reads-at (blank e reads) line after r full parsed (next f p more) = absurd (cc)
  Reads-at (next f p reads) line after r full parsed (blank e more) = absurd (cc)
  Reads-at (next f p reads) line after r full parsed (next f' p' more) =
      let (ss, e) = Reads-at reads line after r full parsed more in (ss, cc)

  -- A change of the content of one record is located. If `verify_chain` accepts a file, and one line
  -- of it is replaced by a line whose record keeps the hash of the old one, and the contents of the two
  -- records have different hashes after the hash of the record before them, then `verify_chain` answers
  -- that the changed file is broken at that very line, after as many records as stand before it.
  pub verify_chain_altered :
      (before after : List String) (line line' : String) (rs : List AuditRecord)
      (r r' : AuditRecord) (n : ℕ)
      → verify_chain py codec (before ++ line ∷ after) ≡ ok (verified n)
      → Reads py codec before rs
      → nonempty (py.strip line) ≡ true
      → codec.validate_json (py.strip line) ≡ ok r
      → nonempty (py.strip line') ≡ true
      → codec.validate_json (py.strip line') ≡ ok r'
      → r'.record_hash ≡ r.record_hash
      → compute_record_hash py (last_hash genesis_hash rs) r'
        ≢ compute_record_hash py (last_hash genesis_hash rs) r
      → verify_chain py codec (before ++ line' ∷ after) ≡ ok (broken (length rs) (length before))
  verify_chain_altered before after line line' rs r r' n v reads full parsed full' parsed' same
        other =
      let (all, whole, chain, _) = (verify_chain-valid_iff py codec _ n).0 v in
      let (ss, split) = Reads-at reads line after r full parsed whole in
      let (chain, (goes, _)) =
        IsChain-split py genesis_hash rs (r ∷ ss) (subst (IsChain py genesis_hash) split chain) in
      let h = last_hash genesis_hash rs in
      elim (Bool-cases (continues py h r')) [
        | inl on ↦ absurd (other (sym ((continues_iff py h r').0 on).1 ∙ same ∙ goes.1))
        | inr stops ↦ (verify_chain-broken_iff py codec _ _ _).1 (
          record {
            before = before;
            line = line';
            after = after;
            records = rs;
            culprit = r';
            split = refl;
            reads = reads;
            chain = chain;
            full = full';
            parsed = parsed';
            stops = λ c. cc ((continues_iff py h r').1 c);
          },
          refl,
          refl,
        )
      ]
