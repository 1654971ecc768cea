-- ===== src/Examples/Recorded.antt =====
-- What the four calls of run_demo.py leave in the audit log.
use compliance_framework.Prelude.{
  ℕ, String, ◌≡◌, refl, sym, ap, subst, ◌∙◌, inl, inr, none, length, length-append, length-map,
  List, [], ◌∷◌, ◌++◌, Result, ok, raise, Result-cases, Exec, arith,
}
use mathlib.Core.List.{append-nil, append_assoc}
use compliance_framework.Models.{ExecutionContext, ToolRequest}
use compliance_framework.Runtime.{Runtime}
use compliance_framework.Policy.Rules.{PolicyRuleSet}
use compliance_framework.Audit.Records.{AuditRecord}
use compliance_framework.Audit.WormLog.{Codec, Logger, Stamp}
use compliance_framework.Audit.WormLog.Growth.{Grown, Grown-trans}
use compliance_framework.Gateway.{ProposedToolCall, script_tool_call}
use compliance_framework.Interceptor.{State, InterceptorResult}
use compliance_framework.Pipeline.{Stage, PipelineResult, run}
use compliance_framework.Pipeline.Trail.{run_audited}
use compliance_framework.Pipeline.Growth.{records_of, run-Grown}
use compliance_framework.Assembly.{Host, l1_pipeline, l1_gateway}
use compliance_framework.Examples.{◌>>=◌, new_client, new_sandbox}
use compliance_framework.Examples.RunDemo.{decide, run_scripted, four_calls}

-- The action returns this, and leaves the state like this.
abbrev pub Returns : {S A : Type 0} → Exec S A → S → A → S → Type 0
Returns action s a s' = action s ≡ (ok a, s')

pub Returns_bind :
    {S A B : Type 0} (action : Exec S A) (more : A → Exec S B) (s s'' : S) (b : B)
    → Returns (action >>= more) s b s''
    → (a : A) × (s' : S) × Returns action s a s' × Returns (more a) s' b s''
unfolding ◌>>=◌
Returns_bind action more s s'' b h = elim (Result-cases (action s).0) [
  | inl (a, told) ↦ (a, (action s).1, ground arith, ground arith)
  | inr (e, failed) ↦ absurd (ground arith)
]

-- The audit records of runs, in their order.
abbrev pub all_records : List PipelineResult → List AuditRecord
all_records [] = []
all_records (r ∷ rs) = records_of r.tool_call_results ++ all_records rs

abbrev pub shown_records : Result (List PipelineResult × ToolRequest) → List AuditRecord
shown_records (ok (shown, raw)) = all_records shown
shown_records (raise e) = []

four_lists :
    (a b c d : List AuditRecord)
    → length a ≡ 1
    → length b ≡ 1
    → length c ≡ 1
    → length d ≡ 1
    → (((a ++ b) ++ c) ++ d ≡ a ++ (b ++ (c ++ (d ++ [])))) × (length (((a ++ b) ++ c) ++ d) ≡ 4)
four_lists a b c d one two three four = (
  rw (append-nil d, append_assoc (a ++ b) c d, append_assoc a b (c ++ d)) refl,
  omega (
    arith,
    length-append ((a ++ b) ++ c) d,
    length-append (a ++ b) c,
    length-append a b,
    one,
    two,
    three,
    four,
  ),
)

module _ (py : Runtime) (codec : Codec) {W : Type 0} (host : Host W) (rules : PolicyRuleSet)
    (edit : String → Result String) where
  abbrev Adds : State W → State W → PipelineResult → Type 0
  Adds s s' result =
      Grown py codec s.log s'.log (records_of result.tool_call_results)
      × (length (records_of result.tool_call_results) ≡ 1)

  run_scripted-Adds :
      (stamps : ℕ → Stamp) (call : ProposedToolCall) (prompt : String) (context : ExecutionContext)
      (s s' : State W) (result : PipelineResult)
      → s.log.fault ≡ none
      → Returns (run_scripted py codec host rules edit stamps call prompt context) s result s'
      → Adds s s' result
  unfolding run_scripted l1_pipeline script_tool_call new_client
  run_scripted-Adds stamps call prompt context s s' result free h =
      let client = script_tool_call call new_client in
      let pipeline = l1_pipeline host py new_sandbox client rules in
      let stage : Stage W = record { gateway = l1_gateway []; inner = s } in
      let told : (run py codec pipeline context stamps prompt "t" stage).0 ≡ ok result =
        ap (λ t. t.0) h in
      let left : (run py codec pipeline context stamps prompt "t" stage).1.inner ≡ s' =
        ap (λ t. t.1) h in
      (
        subst (λ (x : State W). Grown py codec s.log x.log (records_of result.tool_call_results))
            left (run-Grown py codec pipeline context stamps prompt "t" stage result free told),
        length-map (λ (r : InterceptorResult). r.audit_record) result.tool_call_results
            ∙ (run_audited py codec pipeline context stamps prompt "t" stage result told).1,
      )

  -- After some records and a step that leaves the log alone, the record of one more run.
  then_adds :
      (s s1 s2 s3 : State W) (rs : List AuditRecord) (result : PipelineResult)
      → Grown py codec s.log s1.log rs
      → s1.log ≡ s2.log
      → Adds s2 s3 result
      → Grown py codec s.log s3.log (rs ++ records_of result.tool_call_results)
  then_adds s s1 s2 s3 rs result g quiet (h, _) =
      Grown-trans py codec s.log s2.log s3.log rs (records_of result.tool_call_results)
        (subst (λ l. Grown py codec s.log l rs) quiet g) h

  Grown_same :
      (l l' l'' : Logger) (rs ss : List AuditRecord)
      → Grown py codec l l' rs
      → l' ≡ l''
      → rs ≡ ss
      → Grown py codec l l'' ss
  Grown_same l l' l'' rs ss g same order =
      subst (Grown py codec l l'') order (subst (λ k. Grown py codec l k rs) same g)

  -- The four calls leave one record each, as a chain.
  pub four_calls_add :
      (stamps : ℕ → ℕ → Stamp) (s s' : State W) (shown : List PipelineResult) (raw : ToolRequest)
      → s.log.fault ≡ none
      → Returns (four_calls py codec host rules edit stamps) s (shown, raw) s'
      → Grown py codec s.log s'.log (all_records shown) × (length (all_records shown) ≡ 4)
  unfolding four_calls decide
  four_calls_add stamps s s' shown raw free h =
      let (allowed, s1, first, h1) = Returns_bind _ _ s s' (shown, raw) h in
      let (denied, s2, second, h2) = Returns_bind _ _ s1 s' (shown, raw) h1 in
      let (_, s3, decided, h3) = Returns_bind _ _ s2 s' (shown, raw) h2 in
      let (approved, s4, third, h4) = Returns_bind _ _ s3 s' (shown, raw) h3 in
      let (raw_seen, s5, seen, h5) = Returns_bind _ _ s4 s' (shown, raw) h4 in
      let (_, s6, decided', h6) = Returns_bind _ _ s5 s' (shown, raw) h5 in
      let (refused, s7, fourth, h7) = Returns_bind _ _ s6 s' (shown, raw) h6 in
      let quiet : s2.log ≡ s3.log = ap (λ t. t.1.log) decided in
      let quiet' : s4.log ≡ s6.log = ap (λ t. t.1.log) seen ∙ ap (λ t. t.1.log) decided' in
      let a = run_scripted-Adds _ _ _ _ s s1 allowed free first in
      let b = run_scripted-Adds _ _ _ _ s1 s2 denied (a.0.fault ∙ free) second in
      let two = then_adds s s1 s1 s2 _ denied a.0 refl b in
      let c =
        run_scripted-Adds _ _ _ _ s3 s4 approved
          (ap (λ (l : Logger). l.fault) (sym quiet) ∙ two.fault ∙ free) third in
      let three = then_adds s s2 s3 s4 _ approved two quiet c in
      let d =
        run_scripted-Adds _ _ _ _ s6 s7 refused
          (ap (λ (l : Logger). l.fault) (sym quiet') ∙ three.fault ∙ free) fourth in
      let four = then_adds s s4 s6 s7 _ refused three quiet' d in
      let all : all_records (allowed ∷ denied ∷ approved ∷ refused ∷ []) ≡ all_records shown =
        ap (λ t. shown_records t.0) h7 in
      let left : s7.log ≡ s'.log = ap (λ t. t.1.log) h7 in
      let (order, count) = four_lists _ _ _ _ a.1 b.1 c.1 d.1 in
      let order' = order ∙ all in
      (
        Grown_same s.log s7.log s'.log _ (all_records shown) four left order',
        ap length (sym order') ∙ count,
      )
