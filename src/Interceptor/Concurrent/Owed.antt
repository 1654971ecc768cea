-- ===== src/Interceptor/Concurrent/Owed.antt =====
-- The records that the log owes the calls of a system, and those that one step writes.
use mathlib.Core.Option
use mathlib.Core.List.{append_assoc}
use compliance_framework.Prelude.{
  Bool, true, false, ◌≡◌, refl, sym, ◌∙◌, ap, subst, inl, inr, Bool-cases, none, List, [], ◌∷◌,
  ◌++◌, map, Result-cases, arith,
}
use compliance_framework.Models.{ExecutionContext, ToolRequest, dump_result}
use compliance_framework.Runtime.{Runtime}
use compliance_framework.Audit.Records.{AuditRecord}
use compliance_framework.Audit.WormLog.{Codec, Stamp, genesis_hash, chained, record_for}
use compliance_framework.Audit.WormLog.Growth.{Grown, Grown-refl}
use compliance_framework.Interceptor.Parts.{Interceptor, State, Progress}
use compliance_framework.Interceptor.{
  evaluate_decision, safely_resolve_action_requirements, execute_sandboxed, check_breaker,
}
use compliance_framework.Interceptor.Trail.{entry}
use compliance_framework.Interceptor.Growth.{finish_wrapped, audit_and_wrap-Grown}
use compliance_framework.Interceptor.Concurrent.{Point, work, advance, Handling}

-- A record without its place in the chain.
abbrev pub unlinked : AuditRecord → AuditRecord
unlinked r = record r { prev_hash = genesis_hash; record_hash = "" }

module _ (py : Runtime) where
  -- What the log owes a call: one record if its audit is done, none before that.
  abbrev pub owed : Bool → Stamp → ExecutionContext → ToolRequest → Point → List AuditRecord
  owed redact stamp context request (Point.audited p r) =
      record_for py redact stamp context request p.decision
        (Option.map dump_result p.sandbox_result)
      ∷ []
  owed redact stamp context request point = []

  abbrev pub owed_all : Bool → List Handling → List AuditRecord
  owed_all redact [] = []
  owed_all redact (h ∷ hs) = owed redact h.stamp h.context h.request h.point ++ owed_all redact hs

  pub owed_all-append :
      (redact : Bool) (hs ks : List Handling)
      → owed_all redact (hs ++ ks) ≡ owed_all redact hs ++ owed_all redact ks
  owed_all-append redact [] ks = refl
  owed_all-append redact (h ∷ hs) ks =
      let first = owed redact h.stamp h.context h.request h.point in
      ap (λ t. first ++ t) (owed_all-append redact hs ks)
      ∙ sym (append_assoc first (owed_all redact hs) (owed_all redact ks))

module _ (py : Runtime) {W : Type 0} (i : Interceptor W) (codec : Codec) where
  module _ (stamp : Stamp) (context : ExecutionContext) (request : ToolRequest) where
    -- One step of a call writes records, and they are those that the log owes the call now and did not
    -- owe it before.
    pub record Writes (point : Point) (s : State W) (point' : Point) (s' : State W) : Type 0 where
      pub records : List AuditRecord
      pub grown : Grown py codec s.log s'.log records
      pub exact :
          owed py s.log.redact_parameters stamp context request point'
          ≡ map unlinked records ++ owed py s.log.redact_parameters stamp context request point

    work_owes :
        (redact : Bool) (point : Point) (w : W)
        → owed py redact stamp context request (work py i context request point w).0
          ≡ owed py redact stamp context request point
    unfolding work
    work_owes redact Point.checking w =
        elim (Result-cases (check_breaker py i context request w).0) [
          | inl (true, closed) ↦ ground arith
          | inl (false, closed) ↦ ground arith
          | inr (e, failed) ↦ ground arith
        ]
    work_owes redact Point.deciding w =
        elim (Result-cases (evaluate_decision py i context request w).0) [
          | inr (e, failed) ↦ ground arith
          | inl (d, decided) ↦ elim (Bool-cases d.allowed) [
            | inl allowed ↦ ground arith
            | inr denied ↦ ground arith
          ]
        ]
    work_owes redact (Point.resolving d) w =
        elim (Result-cases (safely_resolve_action_requirements py i context request d w).0) [
          | inr (e, failed) ↦ ground arith
          | inl (d, decided) ↦ elim (Bool-cases d.allowed) [
            | inl allowed ↦ ground arith
            | inr denied ↦ ground arith
          ]
        ]
    work_owes redact (Point.running d) w =
        elim (Result-cases (execute_sandboxed py i context request w).0) [
          | inr (e, failed) ↦ ground arith
          | inl (result, done) ↦ ground arith
        ]
    work_owes redact (Point.recording d result) w = refl
    work_owes redact (Point.auditing p) w = refl
    work_owes redact (Point.unchecked e) w = refl
    work_owes redact (Point.audited p r) w = refl

    audit-Writes :
        (p : Progress) (s : State W)
        → s.log.fault ≡ none
        → let (point, s') = advance py i codec stamp context request (Point.auditing p) s in
          Writes (Point.auditing p) s point s'
    unfolding advance chained record_for
    audit-Writes p s free = record {
      records = entry py codec stamp context request s.log p.decision p.sandbox_result ∷ [];
      grown =
          subst
            (λ l.
              Grown py codec s.log l
                (entry py codec stamp context request s.log p.decision p.sandbox_result ∷ []))
            (sym (finish_wrapped py i codec stamp context request p s.world s.log).0)
            (audit_and_wrap-Grown py i codec stamp context request p.decision p.sandbox_result s.log
              free);
      exact = refl;
    }

    pub advance-Writes :
        (point : Point) (s : State W)
        → s.log.fault ≡ none
        → let (point', s') = advance py i codec stamp context request point s in
          Writes point s point' s'
    unfolding advance
    advance-Writes (Point.auditing p) s free = audit-Writes p s free
    advance-Writes point s free = record {
      records = [];
      grown = Grown-refl py codec s.log;
      exact = work_owes s.log.redact_parameters point s.world;
    }
