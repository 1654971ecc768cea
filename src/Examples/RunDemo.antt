-- ===== src/Examples/RunDemo.antt =====
-- examples/run_demo.py
use compliance_framework.Prelude.{
  ℕ, String, Bool, true, false, List, [], ◌∷◌, Result, ok, raise, Exec, if◌then◌else◌,
}
use compliance_framework.Models.{str, ExecutionContext, ToolRequest}
use compliance_framework.Runtime.{Runtime}
use compliance_framework.Policy.Rules.{PolicyRuleSet}
use compliance_framework.Hitl.{Review, set_decision}
use compliance_framework.Audit.WormLog.{
  Codec, Stamp, ChainVerificationResult, verify_chain, open_log,
}
use compliance_framework.Gateway.{ProposedToolCall, script_tool_call}
use compliance_framework.Interceptor.{State}
use compliance_framework.Pipeline.{PipelineResult, run}
use compliance_framework.Assembly.{Host, l1_pipeline, l1_gateway}
use compliance_framework.Examples.{
  ◌>>=◌, return, modify, inspect, assertion_error, index_error, new_client, new_sandbox, new_queue,
  context_of, analyst_ctx,
}

abbrev pub admin_ctx : ExecutionContext
admin_ctx =
    context_of "user-jane" "agent-ops" "session-2" ("AgentExecutor" ∷ "ProductionAdmin" ∷ [])

abbrev pub search_call : ProposedToolCall
search_call = record {
  tool_name = "search_tool";
  function_name = "query";
  parameters = ("q", str "weather in Boston") ∷ [];
  call_id = "demo-search-1";
}

abbrev pub sql_call : ProposedToolCall
sql_call = record {
  tool_name = "sql_tool";
  function_name = "ExecuteReadOnlyQuery";
  parameters = ("query", str "DROP TABLE users") ∷ [];
  call_id = "demo-sql-1";
}

abbrev pub deploy_call : String → String → ProposedToolCall
deploy_call version call_id = record {
  tool_name = "deploy_tool";
  function_name = "deploy";
  parameters = ("environment", str "production") ∷ ("version", str version) ∷ [];
  call_id = call_id;
}

-- `approvals.received[-1][1]`
unfoldable pub last_request : List Review → Result ToolRequest
last_request [] = raise index_error
last_request (r ∷ rs) = elim rs [ [] ↦ ok r.request | _ ∷ _ ↦ last_request rs ]

-- `tampered_lines[1] = edit(tampered_lines[1])`
unfoldable pub tamper : (String → Result String) → List String → Result (List String)
tamper edit [] = raise index_error
tamper edit (line ∷ lines) = elim lines [
  | [] ↦ raise index_error
  | second ∷ more ↦ elim (edit second) [
    | raise e ↦ raise e
    | ok second' ↦ ok (line ∷ second' ∷ more)
  ]
]

-- What `main` learns, which it prints.
pub record Report : Type 0 where
  pub shown : List PipelineResult
  pub raw_seen : ToolRequest
  pub before : ChainVerificationResult
  pub after : ChainVerificationResult

-- `rules` is what `load_ruleset` gave, and `edit` stands for `json.loads`, the change of `record["decision"]["allowed"]`, and `json.dumps`.
module _ (py : Runtime) (codec : Codec) {W : Type 0} (host : Host W) (rules : PolicyRuleSet)
    (edit : String → Result String) where
  -- `make_pipeline`, `script_tool_call` and `run`
  unfoldable pub run_scripted :
      (ℕ → Stamp) → ProposedToolCall → String → ExecutionContext → Exec (State W) PipelineResult
  run_scripted stamps call prompt context s =
      let client = script_tool_call call new_client in
      let (r, stage) =
        run py codec (l1_pipeline host py new_sandbox client rules) context stamps prompt "t"
          (record { gateway = l1_gateway []; inner = s }) in
      (r, stage.inner)

  -- `approvals.set_decision(call_id, approved)`
  unfoldable pub decide : String → Bool → State W → State W
  decide call_id approved s = record s {
    world = host.put_queue (set_decision call_id approved (host.queue s.world)) s.world;
  }

  -- The four calls, each with the stamps of its run.
  unfoldable pub four_calls : (ℕ → ℕ → Stamp) → Exec (State W) (List PipelineResult × ToolRequest)
  four_calls stamps = do
    allowed ← run_scripted (stamps 0) search_call "What's the weather in Boston?" analyst_ctx
    denied ← run_scripted (stamps 1) sql_call "Clean up the users table" analyst_ctx
    _ ← modify (decide "demo-deploy-approved" true)
    approved ←
        run_scripted (stamps 2) (deploy_call "v2.3.1" "demo-deploy-approved")
          "Deploy v2.3.1 to production" admin_ctx
    raw_seen ← inspect (λ s. last_request (host.queue s.world).received)
    _ ← modify (decide "demo-deploy-denied" false)
    refused ←
        run_scripted (stamps 3) (deploy_call "v9.9.9-risky" "demo-deploy-denied")
          "Deploy v9.9.9-risky to production" admin_ctx
    return (allowed ∷ denied ∷ approved ∷ refused ∷ [], raw_seen)

  -- the two assertions
  unfoldable pub assert_detected : Report → Result Report
  assert_detected report =
      if report.before.valid
      then (if report.after.valid then raise assertion_error else ok report)
      else raise assertion_error

  -- the tampering, between two verifications
  unfoldable pub tamper_and_verify : List PipelineResult × ToolRequest → Exec (State W) Report
  tamper_and_verify (shown, raw_seen) = do
    lines ← inspect (λ s. ok s.log.lines)
    before ← inspect (λ s. verify_chain py codec s.log.lines)
    tampered ← inspect (λ s. tamper edit lines)
    _ ← modify (λ s. record s { log = record s.log { lines = tampered } })
    after ← inspect (λ s. verify_chain py codec s.log.lines)
    inspect (λ s.
        assert_detected
          (record { shown = shown; raw_seen = raw_seen; before = before; after = after }))

  -- `main`, where no file is at the path of the log, with the state that it leaves
  unfoldable pub main : (ℕ → ℕ → Stamp) → W → Result (Result Report × State W)
  main stamps w = elim (open_log py codec [] true []) [
    | raise e ↦ raise e
    | ok log ↦
        let s : State W = record { log = log; world = host.put_queue new_queue w } in
        ok ((four_calls stamps >>= tamper_and_verify) s)
  ]
