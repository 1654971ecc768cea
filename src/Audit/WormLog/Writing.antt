-- ===== src/Audit/WormLog/Writing.antt =====
-- What a logger writes, `verify_chain` accepts.
use compliance_framework.Prelude.{
  suc, ◌+◌, String, Bool, true, ◌≡◌, refl, sym, ◌∙◌, ap, subst, Option, none, nonempty, List, [],
  ◌∷◌, ◌++◌, All, map, length, length-append, Dict, ok, arith,
}
use compliance_framework.Models.{Value, ExecutionContext, ToolRequest, PolicyDecision}
use mathlib.Core.List.{append-nil, append_assoc}
use compliance_framework.Runtime.{Runtime}
use compliance_framework.Audit.Records.{AuditRecord}
use compliance_framework.Audit.Siem.{Sink}
use compliance_framework.Audit.WormLog.{
  Codec, Logger, Stamp, genesis_hash, compute_record_hash, verify_chain, last_hash_from,
  load_last_hash, open_log, chained, append, record_for, log_call, canonical,
}
use compliance_framework.Audit.WormLog.Chain.{
  Reads, done, blank, next, Continues, IsChain, IsChain-append, last_hash, last_hash-append,
  verified, verify_chain-valid_iff,
}
use compliance_framework.Audit.Records.{payload}

-- The record is read back from the line that it is written as: `strip` leaves the line as it is,
-- the line is not blank, and the JSON of the record parses to the record.
pub record IsFaithful (py : Runtime) (codec : Codec) (r : AuditRecord) : Type 0 where
  pub full : nonempty (py.strip (codec.dump_json r)) ≡ true
  pub parsed : codec.validate_json (py.strip (codec.dump_json r)) ≡ ok r

-- The log is a chain, and the logger remembers the last hash of it.
pub record IsSound (py : Runtime) (codec : Codec) (l : Logger) (rs : List AuditRecord)
    : Type 0 where
  pub reads : Reads py codec l.lines rs
  pub chain : IsChain py genesis_hash rs
  pub remembers : l.prev_hash ≡ last_hash genesis_hash rs

pub chained-Continues :
    (py : Runtime) (prev : String) (r : AuditRecord) → Continues py prev (chained py prev r)
unfolding chained compute_record_hash canonical payload
chained-Continues py prev r = (refl, refl)

module _ (py : Runtime) (codec : Codec) where
  pub Reads-join :
      {lines lines' : List String} {rs ss : List AuditRecord}
      → Reads py codec lines rs
      → Reads py codec lines' ss
      → Reads py codec (lines ++ lines') (rs ++ ss)
  Reads-join done more = more
  Reads-join (blank e reads) more = blank e (Reads-join reads more)
  Reads-join (next f p reads) more = next f p (Reads-join reads more)

  Reads-append :
      {lines : List String} {rs : List AuditRecord}
      → Reads py codec lines rs
      → (line : String) (r : AuditRecord) → nonempty (py.strip line) ≡ true
      → codec.validate_json (py.strip line) ≡ ok r
      → Reads py codec (lines ++ line ∷ []) (rs ++ r ∷ [])
  Reads-append reads line r f p = Reads-join reads (next f p done)

  -- The lines that records are written as hold the records.
  pub Reads-written :
      (rs : List AuditRecord)
      → All (IsFaithful py codec) rs
      → Reads py codec (map codec.dump_json rs) rs
  Reads-written [] h = done
  Reads-written (r ∷ rs) h = next h.0.full h.0.parsed (Reads-written rs h.1)

  -- Opening a log that is a chain again yields the hash that its writer remembered.
  last_hash_from-Reads :
      {lines : List String} {rs : List AuditRecord}
      → Reads py codec lines rs
      → (last : String) → last_hash_from py codec last lines ≡ ok (last_hash last rs)
  unfolding last_hash_from
  last_hash_from-Reads done last = refl
  last_hash_from-Reads (blank e reads) last = rw e (last_hash_from-Reads reads last)
  last_hash_from-Reads (next {r} f p reads) last =
      rw (f, p) (last_hash_from-Reads reads r.record_hash)

  -- A logger opened on a file that holds a chain is sound, whatever its other settings.
  pub open_log-IsSound :
      (lines : List String) (rs : List AuditRecord) (redact : Bool) (sinks : List Sink)
      → Reads py codec lines rs
      → IsChain py genesis_hash rs
      → (l : Logger) × (open_log py codec lines redact sinks ≡ ok l) × IsSound py codec l rs
  unfolding open_log load_last_hash
  open_log-IsSound lines rs redact sinks reads chain =
      let l : Logger = record {
        lines = lines;
        fault = none;
        redact_parameters = redact;
        sinks = sinks;
        prev_hash = last_hash genesis_hash rs;
      } in
      (
        l,
        rw (last_hash_from-Reads reads genesis_hash),
        record { reads = reads; chain = chain; remembers = refl },
      )

  append-IsSound :
      (l : Logger) (rs : List AuditRecord) (r : AuditRecord)
      → IsFaithful py codec (chained py l.prev_hash r)
      → IsSound py codec l rs
      → l.fault ≡ none
      → ((append py codec r l).0 ≡ ok (chained py l.prev_hash r))
        × IsSound py codec (append py codec r l).1 (rs ++ chained py l.prev_hash r ∷ [])
        × ((append py codec r l).1.fault ≡ none)
  unfolding append
  append-IsSound l rs r faithful s free =
      let r' = chained py l.prev_hash r in
      rw free (
        refl,
        record {
          reads = Reads-append s.reads _ r' faithful.full faithful.parsed;
          chain =
              IsChain-append py genesis_hash rs r' s.chain
                (subst (λ h. Continues py h r') s.remembers (chained-Continues py l.prev_hash r));
          remembers = sym (last_hash-append genesis_hash rs r');
        },
        refl,
      )

-- The arguments of one call of `log_call`.
pub record Call : Type 0 where
  pub stamp : Stamp
  pub context : ExecutionContext
  pub request : ToolRequest
  pub decision : PolicyDecision
  pub result : Option (Dict Value)

module _ (py : Runtime) (codec : Codec) where
  abbrev pub log_one : Call → Logger → Logger
  log_one c l = (log_call py codec c.stamp c.context c.request c.decision c.result l).1

  -- One call after the other, on one logger.
  unfoldable pub log_all : List Call → Logger → Logger
  log_all [] l = l
  log_all (c ∷ cs) l = log_all cs (log_one c l)

  -- The record that the call writes.
  abbrev pub written : Call → Logger → AuditRecord
  written c l =
      chained py l.prev_hash
        (record_for py l.redact_parameters c.stamp c.context c.request c.decision c.result)

  -- Each record that the calls write is read back from its line.
  abbrev pub AllFaithful : List Call → Logger → Type 0
  AllFaithful [] l = Unit
  AllFaithful (c ∷ cs) l = IsFaithful py codec (written c l) × AllFaithful cs (log_one c l)

  log_all-IsSound :
      (cs : List Call) (l : Logger) (rs : List AuditRecord)
      → AllFaithful cs l
      → IsSound py codec l rs
      → l.fault ≡ none
      → (more : List AuditRecord) × IsSound py codec (log_all cs l) (rs ++ more)
        × (length more ≡ length cs)
  unfolding log_all log_call
  log_all-IsSound [] l rs _ s free = ([], rw append-nil s, refl)
  log_all-IsSound (c ∷ cs) l rs (first, others) s free =
      let r = record_for py l.redact_parameters c.stamp c.context c.request c.decision c.result in
      let (_, sound, free') = append-IsSound py codec l rs r first s free in
      let (more, sound', n) =
        log_all-IsSound cs (log_one c l) (rs ++ written c l ∷ []) others sound free' in
      (
        written c l ∷ more,
        subst (IsSound py codec (log_all cs (log_one c l)))
            (append_assoc rs (written c l ∷ []) more) sound',
        ap suc n,
      )

  -- After any number of calls on a logger whose file is a chain of which it remembers the last hash,
  -- where the file can be written and each record written is read back from its line, `verify_chain`
  -- accepts the file and counts the old records and the new ones, and a logger that is opened on the
  -- file then goes on from the hash at which this one stands.
  pub log_all-verified :
      (cs : List Call) (l : Logger) (rs : List AuditRecord)
      → AllFaithful cs l
      → IsSound py codec l rs
      → l.fault ≡ none
      → (verify_chain py codec (log_all cs l).lines ≡ ok (verified (length rs + length cs)))
        × (load_last_hash py codec (log_all cs l).lines ≡ ok (log_all cs l).prev_hash)
  unfolding load_last_hash
  log_all-verified cs l rs faithful s free =
      let (more, sound, n) = log_all-IsSound cs l rs faithful s free in
      (
        (verify_chain-valid_iff py codec _ _).1
            (rs ++ more, sound.reads, sound.chain, omega (arith, length-append rs more, n)),
        last_hash_from-Reads py codec sound.reads genesis_hash
            ∙ ap (λ h. ok h) (sym sound.remembers),
      )
