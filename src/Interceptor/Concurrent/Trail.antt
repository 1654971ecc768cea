-- ===== src/Interceptor/Concurrent/Trail.antt =====
-- The audit log under any interleaving of calls.
use mathlib.Core.List.{Perm, perm_append_comm, map-append, append_assoc}
use mathlib.Core.List.Perm
use compliance_framework.Prelude.{
  All, length, ◌+◌, ◌≡◌, sym, ◌∙◌, ap, subst, none, List, [], ◌∷◌, ◌++◌, map, ok,
}
use compliance_framework.Runtime.{Runtime}
use compliance_framework.Audit.Records.{AuditRecord}
use compliance_framework.Audit.WormLog.{Codec, verify_chain}
use compliance_framework.Audit.WormLog.Chain.{verified}
use compliance_framework.Audit.WormLog.Writing.{IsFaithful, IsSound}
use compliance_framework.Audit.WormLog.Growth.{Grown, Grown-refl, Grown-trans, Grown-verified}
use compliance_framework.Interceptor.Parts.{Interceptor, State}
use compliance_framework.Interceptor.Concurrent.{
  Handling, System, picked, step_of, pick, begin, pass, Reach, here, next,
}
use compliance_framework.Interceptor.Concurrent.Owed.{
  unlinked, owed, owed_all, owed_all-append, advance-Writes,
}

perm_insert {ℓ} :
    {A : Type ℓ} (xs ys zs more : List A)
    → Perm xs (ys ++ zs)
    → Perm (xs ++ more) (ys ++ (more ++ zs))
perm_insert xs ys zs more p = Perm.trans (Perm.append_right more p) (
    subst (λ t. Perm t (ys ++ (more ++ zs))) (sym (append_assoc ys zs more))
      (Perm.append_left ys (perm_append_comm zs more)))

module _ (py : Runtime) {W : Type 0} (i : Interceptor W) (codec : Codec) where
  -- The log of a reached system: the records that came to it are a chain, and they are those of the
  -- calls that are over, each once, in some order.
  pub record Accounts (start : State W) (t : System W) : Type 0 where
    pub records : List AuditRecord
    pub grown : Grown py codec start.log t.state.log records
    pub exact : Perm (map unlinked records) (owed_all py start.log.redact_parameters t.calls)

  Accounts-pick :
      (start : State W) (s : System W) (before after : List Handling) (h : Handling)
      → start.log.fault ≡ none
      → s.calls ≡ before ++ h ∷ after
      → Accounts start s
      → Accounts start (picked before after h (step_of py i codec h s.state))
  Accounts-pick start s before after h free split a =
      let redact = start.log.redact_parameters in
      let owes = owed py redact h.stamp h.context h.request in
      let (point, state) = step_of py i codec h s.state in
      let w =
        advance-Writes py i codec h.stamp h.context h.request h.point s.state
          (a.grown.fault ∙ free) in
      let more = map unlinked w.records in
      let owed_before = owed_all py redact before in
      let owed_after = owed_all py redact after in
      let now : owes point ≡ more ++ owes h.point =
        subst
          (λ b.
            owed py b h.stamp h.context h.request point
            ≡ more ++ owed py b h.stamp h.context h.request h.point)
          a.grown.redact_parameters w.exact in
      let known : Perm (map unlinked a.records) (owed_before ++ (owes h.point ++ owed_after)) =
        subst (Perm (map unlinked a.records))
          (ap (owed_all py redact) split ∙ owed_all-append py redact before (h ∷ after)) a.exact in
      record {
        records = a.records ++ w.records;
        grown =
            Grown-trans py codec start.log s.state.log state.log a.records w.records a.grown
              w.grown;
        exact =
            rw
              (
                map-append unlinked a.records w.records,
                owed_all-append py redact before (record h { point = point } ∷ after),
                now,
                append_assoc more (owes h.point) owed_after,
              )
              (perm_insert (map unlinked a.records) owed_before (owes h.point ++ owed_after) more
                known);
      }

  -- However the steps of any number of calls are interleaved with each other and with changes of the
  -- world, where the log can be written, the records that have come to it are a chain that goes on
  -- from the hash it had, in the order of their lines; the logger remembers the last hash; and, their
  -- links left aside, the records are those of the calls whose audit is done, each exactly once.
  pub Reach-Accounts :
      (start : State W) (t : System W)
      → start.log.fault ≡ none
      → Reach py i codec start t
      → Accounts start t
  Reach-Accounts start t free here = record {
    records = [];
    grown = Grown-refl py codec start.log;
    exact = Perm.rfl;
  }
  Reach-Accounts start t free (next {s} reached (pick before after h split e)) =
      subst (Accounts start) (sym e)
        (Accounts-pick start s before after h free split (Reach-Accounts start s free reached))
  Reach-Accounts start t free (next {s} reached (begin stamp context request e)) =
      let a = Reach-Accounts start s free reached in
      subst (Accounts start) (sym e)
        (record { records = a.records; grown = a.grown; exact = a.exact })
  Reach-Accounts start t free (next {s} reached (pass w e)) =
      let a = Reach-Accounts start s free reached in
      subst (Accounts start) (sym e)
        (record { records = a.records; grown = a.grown; exact = a.exact })

  -- If the file held a chain whose last hash the logger remembered, and each new record is read back
  -- from its line, then `verify_chain` accepts the file after any such interleaving, and counts the old
  -- records and the new ones.
  pub Accounts-verified :
      (start : State W) (t : System W) (rs : List AuditRecord)
      → IsSound py codec start.log rs
      → (a : Accounts start t) → All (IsFaithful py codec) a.records
      → verify_chain py codec t.state.log.lines ≡ ok (verified (length rs + length a.records))
  Accounts-verified start t rs s a faithful =
      Grown-verified py codec start.log t.state.log rs a.records s a.grown faithful
