-- ===== src/Audit/Siem.antt =====
-- audit/siem.py. A sink keeps what was forwarded to it and refuses some records with an exception;
-- `LocalSiemForwarder` refuses none.
use compliance_framework.Prelude.{List, [], ◌∷◌, ◌++◌, Result, ok, raise, Exn, Option, none, some}
use compliance_framework.Audit.Records.{AuditRecord}

pub record Sink : Type 0 where
  pub forwarded : List AuditRecord
  pub refuses : AuditRecord → Option Exn

abbrev pub local_siem_forwarder : Sink
local_siem_forwarder = record { forwarded = []; refuses = λ r. none }

-- `sink.forward(record)`
unfoldable pub forward : Sink → AuditRecord → Result (Unit {0}) × Sink
forward sink r = elim (sink.refuses r) [
  | none ↦ (ok tt, record sink { forwarded = sink.forwarded ++ r ∷ [] })
  | some e ↦ (raise e, sink)
]

-- The loop goes on after an exception, which is only logged.
unfoldable pub forward_best_effort : List Sink → AuditRecord → List Sink
forward_best_effort [] r = []
forward_best_effort (sink ∷ sinks) r = (forward sink r).1 ∷ forward_best_effort sinks r
