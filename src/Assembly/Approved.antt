-- ===== src/Assembly/Approved.antt =====
-- The approval queue as the interceptor's callback.
use compliance_framework.Prelude.{
  Bool, true, false, ◌≡◌, sym, ap, ◌∙◌, ◌⊎◌, inl, inr, some, [], ◌∷◌, ◌++◌, ok, Exec, wait_for,
  lookup, member, arith,
}
use compliance_framework.Models.{ExecutionContext, ToolRequest, PolicyDecision, SandboxResult}
use compliance_framework.Runtime.{Runtime}
use compliance_framework.Hitl.{ApprovalQueue, get_or, review}
use compliance_framework.Interceptor.{Interceptor, attempt, run_allowed}
use compliance_framework.Interceptor.Permission.{attempt_sandboxed}
use compliance_framework.Assembly.{Host, IsHost, approve_by_queue}

abbrev pub over_queue : {W : Type 0} → Host W → Interceptor W → Interceptor W
over_queue host i = record i { approval_callback = some (approve_by_queue host) }

module _ {W : Type 0} (host : Host W) (context : ExecutionContext) (request : ToolRequest) where
  -- The queue was asked about the call with the raw request, wrote that down, and its answer for the
  -- identifier of the call (the default, if there is none) is yes.
  pub record Granted (d : PolicyDecision) (w w' : W) : Type 0 where
    pub yes : get_or (lookup request.call_id (host.queue w).decisions) (host.queue w).default ≡ true
    pub recorded :
        (host.queue w').received
        ≡ (host.queue w).received
          ++ record { context = context; request = request; decision = d } ∷ []

module _ (py : Runtime) {W : Type 0} (host : Host W) (lawful : IsHost host) (i : Interceptor W)
    (context : ExecutionContext) (request : ToolRequest) where
  granted :
      (d : PolicyDecision) (w w' : W)
      (callback : ExecutionContext → ToolRequest → PolicyDecision → Exec W Bool)
      → (over_queue host i).approval_callback ≡ some callback
      → (callback context request d w).0 ≡ ok true
      → (callback context request d w).1 ≡ w'
      → Granted host context request d w w'
  unfolding approve_by_queue review
  granted d w w' callback found said moved =
      let same : approve_by_queue host ≡ callback = cc in
      let answered = ap (λ f. (f context request d w).0) same ∙ said in
      let left = ap (λ f. (f context request d w).1) same ∙ moved in
      record {
        yes = ground arith;
        recorded =
            ap (λ x. (host.queue x).received) (sym left)
            ∙ ap (λ (q : ApprovalQueue). q.received) (lawful.queue-put _ w);
      }

  -- With the approval queue as callback, a call whose decision requires a human leaves a sandbox result
  -- only if the engine allowed it and the queue holds a yes for it; and the sandbox ran on a world in which the queue has recorded
  -- the raw request and the engine's decision, as the last of what it received.
  pub sandboxed-Granted :
      (w : W) (result : SandboxResult)
      → (attempt py (over_queue host i) context request w).0.sandbox_result ≡ some result
      → (d : PolicyDecision) × (w' : W) × (resolved : PolicyDecision) × (w'' : W) × (wait_for
            i.decision_timeout_ms
            (i.policy_engine context request)
            w
          ≡ (ok d, w'))
        × (d.allowed ≡ true)
        × ((member "human_approval" d.action_requirements ≡ false)
            ⊎ Granted host context request d w' w'')
        × (attempt py (over_queue host i) context request w
            ≡ run_allowed py (over_queue host i) context request resolved w'')
  sandboxed-Granted w result h =
      let (d, w', resolved, w'', cleared, same) =
        attempt_sandboxed py (over_queue host i) context request w result h in
      (
        d,
        w',
        resolved,
        w'',
        cleared.answered,
        cleared.allowed,
        elim cleared.approved [
          | inl (free, _, _) ↦ inl free
          | inr (callback, asked, found, said, moved) ↦
              inr (granted d w' w'' callback found said moved)
        ],
        same,
      )
