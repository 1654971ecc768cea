-- ===== src/Examples/Detected.antt =====
-- What run_demo.py shows: the change that it makes to the log is detected, and located.
use compliance_framework.Prelude.{
  ℕ, String, true, ◌≡◌, ◌≢◌, refl, sym, ap, subst, ◌∙◌, none, All, length, nonempty, List, map, [],
  ◌∷◌, Result, ok, arith, ◌+◌,
}
use compliance_framework.Models.{ToolRequest}
use compliance_framework.Runtime.{Runtime}
use compliance_framework.Policy.Rules.{PolicyRuleSet}
use compliance_framework.Audit.Records.{AuditRecord}
use compliance_framework.Audit.WormLog.{
  Codec, Stamp, compute_record_hash, verify_chain, genesis_hash, open_log, load_last_hash,
  last_hash_from,
}
use compliance_framework.Audit.WormLog.Chain.{done, next, verified, broken}
use compliance_framework.Audit.WormLog.Writing.{IsFaithful}
use compliance_framework.Audit.WormLog.Growth.{Grown, Grown-verified}
use compliance_framework.Audit.WormLog.Altering.{verify_chain_altered}
use compliance_framework.Interceptor.{State}
use compliance_framework.Pipeline.{PipelineResult}
use compliance_framework.Assembly.{Host}
use compliance_framework.Examples.{◌>>=◌, new_queue}
use compliance_framework.Examples.RunDemo.{
  Report, tamper, four_calls, assert_detected, tamper_and_verify, main,
}
use compliance_framework.Examples.Recorded.{Returns, all_records, four_calls_add}

module _ (py : Runtime) (codec : Codec) {W : Type 0} (host : Host W) (rules : PolicyRuleSet)
    (edit : String → Result String) where
  -- What the four calls showed, and the two verifications.
  abbrev pub report : List PipelineResult → ToolRequest → Report
  report shown raw = record {
    shown = shown;
    raw_seen = raw;
    before = verified 4;
    after = broken 1 1;
  }

  -- Where the log verifies before the change, and not after it, the second half of `main` reports so.
  tamper_reports :
      (s : State W) (shown : List PipelineResult) (raw : ToolRequest) (lines : List String)
      → verify_chain py codec s.log.lines ≡ ok (verified 4)
      → tamper edit s.log.lines ≡ ok lines
      → verify_chain py codec lines ≡ ok (broken 1 1)
      → tamper_and_verify py codec host rules edit (shown, raw) s
        ≡ (ok (report shown raw), record s { log = record s.log { lines = lines } })
  unfolding tamper_and_verify assert_detected ◌>>=◌
  tamper_reports s shown raw lines valid edited invalid = ground arith

  -- The log is new, and nothing was asked of the approval queue.
  abbrev pub fresh : W → State W
  fresh w = record {
    log = record {
      lines = [];
      fault = none;
      redact_parameters = true;
      sinks = [];
      prev_hash = genesis_hash;
    };
    world = host.put_queue new_queue w;
  }

  main_begins :
      (stamps : ℕ → ℕ → Stamp) (w : W) (s' : State W) (seen : List PipelineResult × ToolRequest)
      → Returns (four_calls py codec host rules edit stamps) (fresh w) seen s'
      → main py codec host rules edit stamps w
        ≡ ok (tamper_and_verify py codec host rules edit seen s')
  unfolding main open_log load_last_hash last_hash_from ◌>>=◌
  main_begins stamps w s' seen h = ground arith

  tamper_second :
      (first second second' : String) (more : List String)
      → edit second ≡ ok second'
      → tamper edit (first ∷ second ∷ more) ≡ ok (first ∷ second' ∷ more)
  unfolding tamper
  tamper_second first second second' more e = ground arith

  -- The tampering of run_demo.py is detected. Where the four calls of `main` return on its new log,
  -- their records (`r0`, `r1` and more) are read back from their lines, and the edit of the second
  -- line gives one whose record keeps its hash, while the contents before and after the edit have
  -- different hashes after the hash of `r0`, `main` reports a log that was valid with four records, and
  -- is then broken at the index 1, so that neither assertion fails.
  pub main_detects :
      (stamps : ℕ → ℕ → Stamp) (w : W) (s' : State W) (shown : List PipelineResult)
      (raw : ToolRequest) (r0 r1 r' : AuditRecord) (more : List AuditRecord) (line' : String)
      → Returns (four_calls py codec host rules edit stamps) (fresh w) (shown, raw) s'
      → all_records shown ≡ r0 ∷ r1 ∷ more
      → All (IsFaithful py codec) (r0 ∷ r1 ∷ more)
      → edit (codec.dump_json r1) ≡ ok line'
      → nonempty (py.strip line') ≡ true
      → codec.validate_json (py.strip line') ≡ ok r'
      → r'.record_hash ≡ r1.record_hash
      → compute_record_hash py r0.record_hash r' ≢ compute_record_hash py r0.record_hash r1
      → (s'' : State W) × (main py codec host rules edit stamps w ≡ ok (ok (report shown raw), s''))
  main_detects stamps w s' shown raw r0 r1 r' more line' returns split faithful edited full parsed
        same other =
      let (grown, count) =
        four_calls_add py codec host rules edit stamps (fresh w) s' shown raw refl returns in
      let g : Grown py codec (fresh w).log s'.log (r0 ∷ r1 ∷ more) =
        subst (Grown py codec (fresh w).log s'.log) split grown in
      let first = codec.dump_json r0 in
      let rest = map codec.dump_json more in
      let lines : s'.log.lines ≡ first ∷ codec.dump_json r1 ∷ rest = g.lines in
      let length_four = ap length (sym split) ∙ count in
      let four : 0 + length (r0 ∷ r1 ∷ more) ≡ 4 = omega (arith, length_four) in
      let valid : verify_chain py codec s'.log.lines ≡ ok (verified 4) =
        Grown-verified py codec (fresh w).log s'.log [] (r0 ∷ r1 ∷ more)
          (record { reads = done; chain = tt; remembers = refl }) g faithful
        ∙ ap (λ n. ok (verified n)) four in
      let invalid : verify_chain py codec (first ∷ line' ∷ rest) ≡ ok (broken 1 1) =
        verify_chain_altered py codec (first ∷ []) rest (codec.dump_json r1) line' (r0 ∷ []) r1 r' 4
          (ap (verify_chain py codec) (sym lines) ∙ valid)
          (next faithful.0.full faithful.0.parsed done) faithful.1.0.full faithful.1.0.parsed full
          parsed same other in
      (
        _,
        main_begins stamps w s' (shown, raw) returns
            ∙ ap (λ t. ok t)
                (tamper_reports s' shown raw (first ∷ line' ∷ rest) valid
                  (ap (tamper edit) lines ∙ tamper_second first _ line' rest edited) invalid),
      )
