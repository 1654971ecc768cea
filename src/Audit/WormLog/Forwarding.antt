-- ===== src/Audit/WormLog/Forwarding.antt =====
-- The sinks beside the log: none of them holds up the others or the log.
use compliance_framework.Prelude.{
  ◌≡◌, refl, Option, none, some, Option-cases, inl, inr, List, [], ◌∷◌, ◌++◌, map, Dict, ok, arith,
}
use compliance_framework.Models.{Value, ExecutionContext, ToolRequest, PolicyDecision}
use compliance_framework.Runtime.{Runtime}
use compliance_framework.Audit.Records.{AuditRecord}
use compliance_framework.Audit.Siem.{Sink, forward, forward_best_effort}
use compliance_framework.Audit.WormLog.{Codec, Logger, Stamp, append, log_call}

-- The sink with the record, unless it refuses that.
abbrev pub offered : AuditRecord → Sink → Sink
offered r sink = elim (sink.refuses r) [
  | none ↦ record sink { forwarded = sink.forwarded ++ r ∷ [] }
  | some e ↦ sink
]

forward-offered : (r : AuditRecord) (sink : Sink) → (forward sink r).1 ≡ offered r sink
unfolding forward
forward-offered r sink = elim (Option-cases (sink.refuses r)) [
  | inl takes ↦ ground arith
  | inr (e, refused) ↦ ground arith
]

forward_best_effort-offered :
    (sinks : List Sink) (r : AuditRecord) → forward_best_effort sinks r ≡ map (offered r) sinks
unfolding forward_best_effort
forward_best_effort-offered [] r = refl
forward_best_effort-offered (sink ∷ sinks) r =
    ground (arith, forward-offered r sink, forward_best_effort-offered sinks r)

module _ (py : Runtime) (codec : Codec) (stamp : Stamp) (context : ExecutionContext)
    (request : ToolRequest) (decision : PolicyDecision) (result : Option (Dict Value)) where
  -- Forwarding is best effort: with any sinks, a call is answered and written to the log as it is
  -- without sinks; and if the log can be written, each sink that does not refuse the record that was
  -- answered has it behind those it had, and each other sink is as it was, whatever the others do.
  pub log_call-forwarded :
      (l : Logger)
      → let (answer, l') = log_call py codec stamp context request decision result l in
        let (alone, l'') =
          log_call py codec stamp context request decision result (record l { sinks = [] }) in
        (answer ≡ alone)
        × (l' ≡ record l'' { sinks = l'.sinks })
        × ((r : AuditRecord) → answer ≡ ok r → l'.sinks ≡ map (offered r) l.sinks)
  unfolding log_call append
  log_call-forwarded l = elim (Option-cases l.fault) [
    | inl free ↦ (
      ground arith,
      ground arith,
      λ r told. ground (arith, forward_best_effort-offered l.sinks r),
    )
    | inr (e, fault) ↦ (ground arith, ground arith, λ r told. absurd (ground arith))
  ]
