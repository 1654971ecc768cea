-- ===== src/Audit/WormLog/Growth.antt =====
-- How a log grows while it is written to.
use mathlib.Core.List.{map-append, append_assoc, append-nil}
use compliance_framework.Prelude.{
  All, length, length-append, ◌+◌, ◌≡◌, refl, sym, ◌∙◌, ap, subst, List, [], ◌∷◌, ◌++◌, map, ok,
}
use compliance_framework.Runtime.{Runtime}
use compliance_framework.Audit.Records.{AuditRecord}
use compliance_framework.Audit.Siem.{Sink, local_siem_forwarder, forward, forward_best_effort}
use compliance_framework.Audit.WormLog.{Codec, Logger, genesis_hash, verify_chain}
use compliance_framework.Audit.WormLog.Chain.{
  Reads, verified, verify_chain-valid_iff, IsChain, IsChain-join, last_hash, last_hash_join,
}
use compliance_framework.Audit.WormLog.Writing.{IsFaithful, IsSound, Reads-join, Reads-written}

-- The sinks after each of the records was offered to them.
abbrev pub offer_all : List AuditRecord → List Sink → List Sink
offer_all [] sinks = sinks
offer_all (r ∷ rs) sinks = offer_all rs (forward_best_effort sinks r)

offer_all_join :
    (rs ss : List AuditRecord) (sinks : List Sink)
    → offer_all (rs ++ ss) sinks ≡ offer_all ss (offer_all rs sinks)
offer_all_join [] ss sinks = refl
offer_all_join (r ∷ rs) ss sinks = offer_all_join rs ss (forward_best_effort sinks r)

-- The local forwarder, with what it holds.
abbrev holding : List AuditRecord → List Sink
holding forwarded = record local_siem_forwarder { forwarded = forwarded } ∷ []

-- The local forwarder gets all of them, in their order.
pub offer_all_local :
    (rs held : List AuditRecord) → offer_all rs (holding held) ≡ holding (held ++ rs)
unfolding forward_best_effort forward
offer_all_local [] held = ap holding (sym (append-nil held))
offer_all_local (r ∷ rs) held =
    offer_all_local rs (held ++ r ∷ []) ∙ ap holding (append_assoc held (r ∷ []) rs)

module _ (py : Runtime) (codec : Codec) where
  -- What has come to the log between two of its states: these records, as a chain, each of which was
  -- offered to the sinks.
  pub record Grown (l l' : Logger) (records : List AuditRecord) : Type 0 where
    pub lines : l'.lines ≡ l.lines ++ map codec.dump_json records
    pub chain : IsChain py l.prev_hash records
    pub remembers : l'.prev_hash ≡ last_hash l.prev_hash records
    pub sinks : l'.sinks ≡ offer_all records l.sinks
    pub fault : l'.fault ≡ l.fault
    pub redact_parameters : l'.redact_parameters ≡ l.redact_parameters

  pub Grown-refl : (l : Logger) → Grown l l []
  Grown-refl l = record {
    lines = sym (append-nil l.lines);
    chain = tt;
    remembers = refl;
    sinks = refl;
    fault = refl;
    redact_parameters = refl;
  }

  pub Grown-trans :
      (l l' l'' : Logger) (rs ss : List AuditRecord)
      → Grown l l' rs
      → Grown l' l'' ss
      → Grown l l'' (rs ++ ss)
  Grown-trans l l' l'' rs ss g h = record {
    lines =
        h.lines
        ∙ ap (λ t. t ++ map codec.dump_json ss) g.lines
        ∙ append_assoc l.lines (map codec.dump_json rs) (map codec.dump_json ss)
        ∙ ap (◌++◌ l.lines) (sym (map-append codec.dump_json rs ss));
    chain =
        IsChain-join py l.prev_hash rs ss g.chain
          (subst (λ p. IsChain py p ss) g.remembers h.chain);
    remembers =
        h.remembers ∙ ap (λ p. last_hash p ss) g.remembers ∙ sym (last_hash_join l.prev_hash rs ss);
    sinks = h.sinks ∙ ap (offer_all ss) g.sinks ∙ sym (offer_all_join rs ss l.sinks);
    fault = h.fault ∙ g.fault;
    redact_parameters = h.redact_parameters ∙ g.redact_parameters;
  }

  -- A sound log that has grown by records that are read back from their lines is sound with them.
  pub Grown-IsSound :
      (l l' : Logger) (rs more : List AuditRecord)
      → IsSound py codec l rs
      → Grown l l' more
      → All (IsFaithful py codec) more
      → IsSound py codec l' (rs ++ more)
  Grown-IsSound l l' rs more s g faithful = record {
    reads =
        subst (λ lines. Reads py codec lines (rs ++ more)) (sym g.lines)
          (Reads-join py codec s.reads (Reads-written py codec more faithful));
    chain =
        IsChain-join py genesis_hash rs more s.chain
          (subst (λ p. IsChain py p more) s.remembers g.chain);
    remembers =
        g.remembers
        ∙ ap (λ p. last_hash p more) s.remembers
        ∙ sym (last_hash_join genesis_hash rs more);
  }

  pub Grown-verified :
      (l l' : Logger) (rs more : List AuditRecord)
      → IsSound py codec l rs
      → Grown l l' more
      → All (IsFaithful py codec) more
      → verify_chain py codec l'.lines ≡ ok (verified (length rs + length more))
  Grown-verified l l' rs more s g faithful =
      let s' = Grown-IsSound l l' rs more s g faithful in
      (verify_chain-valid_iff py codec _ _).1
        (rs ++ more, s'.reads, s'.chain, length-append rs more)
