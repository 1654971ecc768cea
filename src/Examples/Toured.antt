-- ===== src/Examples/Toured.antt =====
-- What run_demo_l2.py leaves in the audit log, and what `verify_chain` says of it.
use compliance_framework.Prelude.{
  ℕ, ◌+◌, ◌≡◌, refl, sym, ap, subst, ◌∙◌, Option, none, some, true, All, length, length-append,
  List, [], ◌∷◌, ◌++◌, Result, ok, raise, arith,
}
use compliance_framework.Runtime.{Runtime}
use compliance_framework.Audit.WormLog.{
  Codec, Stamp, ChainVerificationResult, verify_chain, genesis_hash, open_log, load_last_hash,
  last_hash_from,
}
use compliance_framework.Audit.Siem.{local_siem_forwarder}
use compliance_framework.Reliability.InMemory.{start}
use compliance_framework.Audit.WormLog.Chain.{done, verified}
use compliance_framework.Audit.WormLog.Writing.{IsFaithful}
use compliance_framework.Audit.WormLog.Growth.{Grown, Grown-trans, Grown-verified, offer_all_local}
use compliance_framework.Identity.SessionToken.{Moment, Hmac}
use compliance_framework.Interceptor.{State}
use compliance_framework.Pipeline.{PipelineResult}
use compliance_framework.Pipeline.Growth.{records_of}
use compliance_framework.Assembly.{Host}
use compliance_framework.Examples.{new_client}
use compliance_framework.Examples.Recorded.{Returns, Returns_bind, all_records}
use compliance_framework.Examples.RunDemoL2.{Report, run_rogue, attempt_calls, tour, main}
use compliance_framework.Examples.Logged.{Adds, attempt_calls_add, run_rogue_adds}

ok_is : {A : Type 0} (a b : A) → (Result.ok a) ≡ ok b → a ≡ b
ok_is a b e = ground arith

-- The parts of a report that the log depends on.
record Seen : Type 0 where
  rogue : PipelineResult
  attempts : List PipelineResult
  chain : ChainVerificationResult

abbrev seen_in : Report → Seen
seen_in r = record { rogue = r.rogue; attempts = r.attempts; chain = r.chain }

abbrev reported : Result Report → Option Seen
reported (ok r) = some (seen_in r)
reported (raise e) = none

module _ (py : Runtime) (codec : Codec) (hmac : Hmac) {W : Type 0} (host : Host W)
    (wall : W → Moment) where
  abbrev Leaves : State W → State W → Seen → Type 0
  Leaves s s' seen =
      Adds py codec hmac host wall s s' (seen.rogue ∷ seen.attempts) 4
      × (verify_chain py codec s'.log.lines ≡ ok seen.chain)

  concluded :
      (s s4 s6 s' : State W) (seen : Seen) (report : Report)
      → Grown py codec s.log s4.log (records_of seen.rogue.tool_call_results)
      → length (records_of seen.rogue.tool_call_results) ≡ 1
      → Grown py codec s4.log s6.log (all_records seen.attempts)
      → length (all_records seen.attempts) ≡ 3
      → verify_chain py codec s6.log.lines ≡ ok seen.chain
      → s6 ≡ s'
      → some seen ≡ some (seen_in report)
      → Leaves s s' (seen_in report)
  concluded s s4 s6 s' seen report one count many count' checked left told =
      let same : seen ≡ seen_in report = ground arith in
      let first = records_of seen.rogue.tool_call_results in
      let others = all_records seen.attempts in
      let all = Grown-trans py codec s.log s4.log s6.log first others one many in
      let four : length (first ++ others) ≡ 4 =
        omega (arith, length-append first others, count, count') in
      subst (Leaves s s') same (subst (λ t. Leaves s t seen) left ((all, four), checked))

  -- The four runs of `tour` leave one record each, and `verify_chain` is asked about the file with them.
  tour_adds :
      (rogue_stamps : ℕ → Stamp) (stamps : ℕ → ℕ → Stamp) (s s' : State W) (report : Report)
      → s.log.fault ≡ none
      → Returns (tour py codec hmac host wall rogue_stamps stamps) s report s'
      → Leaves s s' (seen_in report)
  unfolding tour
  tour_adds rogue_stamps stamps s s' report free h =
      let (token, s1, issued, h1) = Returns_bind _ _ s s' report h in
      let (own, s2, asked, h2) = Returns_bind _ _ s1 s' report h1 in
      let (other, s3, asked', h3) = Returns_bind _ _ s2 s' report h2 in
      let (rogue, s4, first, h4) = Returns_bind _ _ s3 s' report h3 in
      let (rejection, s5, tried, h5) = Returns_bind _ _ s4 s' report h4 in
      let (attempts, s6, called, h6) = Returns_bind _ _ s5 s' report h5 in
      let (chain, s7, checked, h7) = Returns_bind _ _ s6 s' report h6 in
      let still : s3 ≡ s =
        sym (ap (λ t. t.1) issued ∙ ap (λ t. t.1) asked ∙ ap (λ t. t.1) asked') in
      let still' : s5 ≡ s4 = sym (ap (λ t. t.1) tried) in
      let (one, count) = run_rogue_adds py codec hmac host wall rogue_stamps s s4 rogue free (
        subst (λ t. Returns (run_rogue py codec hmac host wall rogue_stamps) t rogue s4) still
          first) in
      let (many, count') =
        attempt_calls_add py codec hmac host wall stamps 3 0 new_client [] s4 s6 attempts
          (one.fault ∙ free)
          (subst
            (λ t.
              Returns (attempt_calls py codec hmac host wall stamps 3 0 new_client []) t attempts
                s6)
            still' called) in
      let left : s6 ≡ s' = ap (λ t. t.1) checked ∙ ap (λ t. t.1) h7 in
      let told = ap (λ t. reported t.0) h7 in
      concluded s s4 s6 s' (record { rogue = rogue; attempts = attempts; chain = chain }) report one
        count many count' (ap (λ t. t.0) checked) left told

  -- The audit trail of run_demo_l2.py. Where `main` returns its report, and the records of its four
  -- runs are read back from their lines, the verification that it reports counts four records and says
  -- that they are valid, and the SIEM forwarder holds these records, in the order of the runs.
  pub main_audited :
      (rogue_stamps : ℕ → Stamp) (stamps : ℕ → ℕ → Stamp) (w : W) (s' : State W) (report : Report)
      → main py codec hmac host wall rogue_stamps stamps w ≡ ok (ok report, s')
      → All (IsFaithful py codec) (all_records (report.rogue ∷ report.attempts))
      → (report.chain ≡ verified 4)
        × (s'.log.sinks
            ≡ record local_siem_forwarder {
              forwarded = all_records (report.rogue ∷ report.attempts);
            }
              ∷ [])
  unfolding main open_log load_last_hash last_hash_from
  main_audited rogue_stamps stamps w s' report h faithful =
      let s : State W = record {
        log = record {
          lines = [];
          fault = none;
          redact_parameters = true;
          sinks = local_siem_forwarder ∷ [];
          prev_hash = genesis_hash;
        };
        world = host.put_backend start w;
      } in
      let returned : Returns (tour py codec hmac host wall rogue_stamps stamps) s report s' =
        ok_is _ _ h in
      let ((grown, count), told) = tour_adds rogue_stamps stamps s s' report refl returned in
      let records = all_records (report.rogue ∷ report.attempts) in
      let accepted =
        Grown-verified py codec s.log s'.log [] records
          (record { reads = done; chain = tt; remembers = refl }) grown faithful in
      let four : 0 + length records ≡ 4 = omega (arith, count) in
      (
        ok_is _ _ (sym told ∙ accepted ∙ ap (λ n. ok (verified n)) four),
        grown.sinks ∙ offer_all_local records [],
      )
