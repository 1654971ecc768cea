-- ===== src/Audit/Tests.antt =====
-- A log of one call, and the classification of a text.
use compliance_framework.Prelude.{
  String, ◌<>◌, Bool-cases, inl, inr, true, ◌≢◌, eq_iff, ◌≡◌, refl, ◌↔◌, ◌⊎◌, none, some, ◌==◌,
  List, [], ◌∷◌, length, map, All, Kind, ok, raise, if◌then◌else◌,
}
use Prim.Native.String.{count}
use compliance_framework.Models.{decide_as, Value, obj, pair, str}
use compliance_framework.Runtime.{Runtime}
use compliance_framework.Fixture.{runtime, engineer, deploy, constant_hash}
use compliance_framework.Guardrails.Patterns.{pii_patterns, IsLawful}
use compliance_framework.Audit.Records.{AuditRecord, payload}
use compliance_framework.Audit.Siem.{Sink, local_siem_forwarder}
use compliance_framework.Audit.WormLog.{
  Codec, Logger, genesis_hash, canonical, compute_record_hash, chained, record_for, verify_chain,
  load_last_hash,
}
use compliance_framework.Audit.WormLog.Chain.{
  Reads, done, blank, next, IsChain, verified, broken, verify_chain-valid_iff,
}
use compliance_framework.Audit.WormLog.Breaks.{Break, verify_chain-broken_iff}
use compliance_framework.Audit.WormLog.Writing.{Call, log_all, AllFaithful, log_all-verified}
use compliance_framework.Audit.WormLog.Tampering.{Forged, tamper_evident}
use compliance_framework.Audit.WormLog.Altering.{verify_chain_altered}

abbrev call : Call
call = record {
  stamp = record { record_id = "r1"; timestamp = "2026-01-01T00:00:00" };
  context = engineer;
  request = deploy;
  decision = decide_as true "all policy checks passed";
  result = none;
}

abbrev new_log : Logger
new_log = record {
  lines = [];
  fault = none;
  redact_parameters = true;
  sinks = [];
  prev_hash = genesis_hash;
}

abbrev first_record : AuditRecord
first_record =
    chained runtime genesis_hash
      (record_for runtime true call.stamp call.context call.request call.decision call.result)

-- The codec of a log whose lines are the identifiers of its records.
abbrev by_id : Codec
by_id = record {
  dump_json = λ r. r.record_id;
  validate_json = λ text.
      if text == "r1"
      then ok first_record
      else raise (record { kind = Kind.other_error; message = "invalid JSON" });
}

first_faithful : AllFaithful runtime by_id (call ∷ []) new_log
unfolding chained record_for
first_faithful = (record { full = refl; parsed = refl }, tt)

log_all-verified_example :
    (verify_chain runtime by_id (log_all runtime by_id (call ∷ []) new_log).lines ≡ ok (verified 1))
    × (load_last_hash runtime by_id (log_all runtime by_id (call ∷ []) new_log).lines
        ≡ ok (log_all runtime by_id (call ∷ []) new_log).prev_hash)
log_all-verified_example =
    log_all-verified runtime by_id (call ∷ []) new_log [] first_faithful
      (record { reads = done; chain = tt; remembers = refl }) refl

first-Reads : Reads runtime by_id ("r1" ∷ []) (first_record ∷ [])
unfolding chained record_for
first-Reads = next refl refl done

first-IsChain : IsChain runtime genesis_hash (first_record ∷ [])
unfolding chained record_for compute_record_hash
first-IsChain = ((refl, refl), tt)

verify_chain-valid_iff_example : (verify_chain runtime by_id ("r1" ∷ []) ≡ ok (verified 1)) ↔ (
    (rs : List AuditRecord) × Reads runtime by_id ("r1" ∷ []) rs
    × IsChain runtime genesis_hash rs
    × (length rs ≡ 1))
verify_chain-valid_iff_example = verify_chain-valid_iff runtime by_id ("r1" ∷ []) 1

-- The record was written twice, so the second line does not carry the chain on.
verify_chain-broken_iff_example :
    (verify_chain runtime by_id ("r1" ∷ "r1" ∷ []) ≡ ok (broken 1 1)) ↔ (
      (b : Break runtime by_id genesis_hash ("r1" ∷ "r1" ∷ [])) × (length b.records ≡ 1)
      × (length b.before ≡ 1))
verify_chain-broken_iff_example = verify_chain-broken_iff runtime by_id ("r1" ∷ "r1" ∷ []) 1 1

first_valid : verify_chain runtime by_id ("r1" ∷ []) ≡ ok (verified 1)
first_valid =
    (verify_chain-valid_iff runtime by_id ("r1" ∷ []) 1).1
      (first_record ∷ [], first-Reads, first-IsChain, refl)

abbrev labels : List String
labels = "ip_address" ∷ "ssn" ∷ []

patterns-IsLawful : All (IsLawful runtime) (pii_patterns runtime)
unfolding pii_patterns
patterns-IsLawful = (
  λ text replacement h. rw h refl,
  (
    λ text replacement h. rw h refl,
    (
      λ text replacement h. rw h refl,
      (λ text replacement h. rw h refl, (λ text replacement h. rw h refl, tt)),
    ),
  ),
)

-- A sink that is down, and one that is not.
abbrev two_sinks : List Sink
two_sinks =
    record {
      forwarded = [];
      refuses = λ r. some (record { kind = Kind.other_error; message = "connection refused" });
    }
    ∷ local_siem_forwarder
    ∷ []

-- Of a record, its identifier.
abbrev id_text : Value → String
id_text (obj (pair key (str id) more)) = id
id_text value = ""

abbrev other_hash : String
other_hash = "cdcdcdcdcdcdcdcdcdcdcdcdcdcdcdcdcdcdcdcdcdcdcdcdcdcdcdcdcdcdcdcd"

-- A hash that tells the first record of a log with the identifier `r1` from any other.
abbrev two_hashes : String → String
two_hashes text = if text == genesis_hash <> "r1" then constant_hash else other_hash

abbrev by_identifier : Runtime
by_identifier = record runtime { dumps = id_text; sha256 = two_hashes }

two_hashes-count : (text : String) → count (by_identifier.sha256 text) ≡ 64
two_hashes-count text = elim (Bool-cases (text == genesis_hash <> "r1")) [
  | inl same ↦ rw same refl
  | inr other ↦ rw other refl
]

abbrev kept : AuditRecord
kept =
    chained by_identifier genesis_hash
      (record_for by_identifier true call.stamp call.context call.request call.decision call.result)

abbrev forged : AuditRecord
forged = record kept { record_id = "r9" }

-- A log in which `r9` is the record `r1`, changed.
abbrev with_forged : Codec
with_forged = record {
  dump_json = λ r. r.record_id;
  validate_json = λ text. if text == "r1" then ok kept else ok forged;
}

kept-Reads : Reads by_identifier with_forged ("r1" ∷ []) (kept ∷ [])
unfolding chained record_for
kept-Reads = next refl refl done

kept_valid : verify_chain by_identifier with_forged ("r1" ∷ []) ≡ ok (verified 1)
unfolding chained record_for compute_record_hash canonical payload
kept_valid =
    (verify_chain-valid_iff by_identifier with_forged ("r1" ∷ []) 1).1
      (kept ∷ [], kept-Reads, ((refl, refl), tt), refl)

forged_differs :
    compute_record_hash by_identifier genesis_hash forged
    ≢ compute_record_hash by_identifier genesis_hash kept
unfolding chained record_for compute_record_hash canonical payload
forged_differs e = let same = (eq_iff other_hash constant_hash).1 e in cc

verify_chain_altered_example : verify_chain by_identifier with_forged ("r9" ∷ []) ≡ ok (broken 0 0)
verify_chain_altered_example =
    verify_chain_altered by_identifier with_forged [] [] "r1" "r9" [] kept forged 1 kept_valid done
      refl refl refl refl refl forged_differs

-- The same log, with a blank line in front.
kept_blank : verify_chain by_identifier with_forged ("" ∷ "r1" ∷ []) ≡ ok (verified 1)
unfolding chained record_for compute_record_hash canonical payload
kept_blank =
    (verify_chain-valid_iff by_identifier with_forged ("" ∷ "r1" ∷ []) 1).1
      (kept ∷ [], blank refl kept-Reads, ((refl, refl), tt), refl)

tamper_evident_example :
    (map (canonical by_identifier) (kept ∷ []) ≡ map (canonical by_identifier) (kept ∷ []))
    ⊎ Forged by_identifier (kept ∷ []) (kept ∷ [])
tamper_evident_example =
    tamper_evident by_identifier two_hashes-count with_forged ("r1" ∷ []) ("" ∷ "r1" ∷ [])
      (kept ∷ []) (kept ∷ []) 1 1 kept-Reads (blank refl kept-Reads) kept_valid kept_blank refl
