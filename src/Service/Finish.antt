-- ===== src/Service/Finish.antt =====
-- internal/service/service.go: `failRun` and the last critical section of `executeRun`. Both build
-- a candidate state and install it, with the indexes rebuilt.
pub mod Endings
pub mod Effects
pub mod Safety
use multi_agent_com.Base.{
  ℕ, String, ◌==◌, ◌+++◌, Bool, true, false, ◌||◌, Option, none, some, snoc, put, update_first,
  trim, is_empty, ltb, if◌then◌else◌,
}
use multi_agent_com.Domain.Records.{
  Plan, Sandbox, AgentRun, Artifact, HumanOverride, Alert, SandboxStatus, RunStatus,
}
use multi_agent_com.Domain.Task.{Task, done, is_in_progress, is_human_override, TaskStatus}
use multi_agent_com.Domain.Audit.{try_transition}
use multi_agent_com.Service.State.{
  Persisted, Service, World, Error, capture, restore, push, error_text, stored, project_missing,
  failed,
}
use multi_agent_com.Service.Tasks.{store_task}
use multi_agent_com.Service.Budget.{Tokens, communication_count, estimate_run_tokens, estimate_cost}
use multi_agent_com.Service.Start.{Backend, in_process, repository, Answers}
use multi_agent_com.Service.Execution.{Snapshot, Response, normalize_usage, compact_summary}

-- The candidate is installed: in process at once, over the repository once it is stored.
unfoldable pub install : Backend → Answers → Persisted → Service → Service
install in_process a candidate s = restore a.visits candidate
install repository a candidate s = elim a.repo [
  | stored ↦ restore a.visits candidate
  | project_missing ↦ s
  | failed e ↦ s
]

-- The first sandbox of the run is changed, if the run has one.
abbrev pub update_sandbox : AgentRun → (Sandbox → Sandbox) → Persisted → Persisted
update_sandbox run f p = record p {
  sandboxes =
      if is_empty run.sandbox_id
      then p.sandboxes
      else put p.sandboxes run.project_id
          (update_first (λ x. x.id == run.sandbox_id) f (p.sandboxes run.project_id));
}

abbrev pub is_active : TaskStatus → Bool
is_active s = is_in_progress s || is_human_override s

-- The task of a failed run, if it is still in work.
unfoldable pub fail_task : ℕ → Task → Task
fail_task now task =
    if is_active task.status
    then try_transition task TaskStatus.failed "single agent execution failed" now
    else task

unfoldable pub failure_alert : String → AgentRun → String → ℕ → Alert
failure_alert id run failure now = record {
  id = id;
  project_id = run.project_id;
  severity = "ERROR";
  type = "RUN_FAILURE";
  resource_id = run.id;
  message = failure;
  timestamp = now;
}

abbrev pub with_task : (Task → Task) → Option Task → Persisted → Persisted
with_task f none p = p
with_task f (some task) p = store_task (f task) p

abbrev map_task : (Task → Task) → Option Task → Option Task
map_task f none = none
map_task f (some task) = some (f task)

abbrev plan_of : Service → Option Task → Option Plan
plan_of s none = none
plan_of s (some task) = s.index.plan_index task.plan_id

-- The run, with the estimate of what it has cost.
unfoldable pub failed_run : World → Service → AgentRun → String → ℕ → AgentRun
unfolding estimate_run_tokens communication_count
failed_run w s run failure now =
    let task = map_task (fail_task now) (s.data'.tasks run.task_id) in
    let tokens =
      estimate_run_tokens task (plan_of s task)
        (communication_count s.data' run.project_id run.task_id) true in
    record run {
      status = RunStatus.failed;
      prompt_tokens = tokens.prompt;
      completion_tokens = tokens.completion;
      total_tokens = tokens.total;
      estimated_cost = estimate_cost w.config tokens.prompt tokens.completion;
      error = failure;
      ended_at = now;
    }

-- The run, the alert and the sandbox in the candidate of `failRun`. The run stands under the key
-- that it was found by.
unfoldable pub fail_changes : World → String → String → AgentRun → String → ℕ → Service → Persisted
unfolding failure_alert failed_run capture
fail_changes w alert_id run_id run failure now s =
    let p = capture s in
    update_sandbox run
      (λ x. record x { status = SandboxStatus.failed; failure_reason = failure; updated_at = now })
      (record p {
        runs = put p.runs run_id (some (failed_run w s run failure now));
        alerts = push p.alerts run.project_id (failure_alert alert_id run failure now);
      })

-- The candidate of `failRun`.
unfoldable pub fail_candidate :
    World → String → String → AgentRun → String → ℕ → Service → Persisted
unfolding fail_task fail_changes capture
fail_candidate w alert_id run_id run failure now s =
    with_task (fail_task now) ((capture s).tasks run.task_id)
      (fail_changes w alert_id run_id run failure now s)

-- `failRun`
unfoldable pub fail_run :
    Backend → World → Answers → String → String → Error → ℕ → Service → Service
unfolding fail_candidate install capture
fail_run b w a alert_id run_id failure now s = elim (s.data'.runs run_id) [
  | none ↦ s
  | some run ↦ install b a (fail_candidate w alert_id run_id run (error_text failure) now s) s
]

-- What the run has produced outside of the state: the artifact and the summary of the delivery
-- bundle, the response of the runtime, the override that was applied, and the copy of the sandbox
-- that the run has worked on.
pub record Product : Type 0 where
  pub artifact : Artifact
  pub summary : String
  pub response : Response
  pub applied : Option HumanOverride
  pub sandbox : Option Sandbox

-- The tokens that the runtime reports, or the estimate where it reports none.
unfoldable pub run_tokens : Service → Snapshot → Task → Response → Tokens
unfolding estimate_run_tokens communication_count normalize_usage
run_tokens s snap task response =
    let usage =
      normalize_usage response.prompt_tokens response.completion_tokens response.total_tokens in
    if ltb 0 usage.prompt || ltb 0 usage.completion || ltb 0 usage.total
    then usage
    else estimate_run_tokens (some task) (some snap.plan)
        (communication_count s.data' snap.project.id task.id) false

abbrev output_part : Response → String
output_part response =
    let text = compact_summary response.output in
    if is_empty text then "" else "; runtime output: " +++ text

abbrev override_part : Option HumanOverride → String
override_part none = ""
override_part (some o) =
    "; applied human override by " +++ (o.operator +++ (": " +++ o.instruction))

unfoldable pub succeeded_run : World → Service → Snapshot → Task → AgentRun → Product → ℕ → AgentRun
unfolding run_tokens
succeeded_run w s snap task run product now =
    let tokens = run_tokens s snap task product.response in
    let model = trim product.response.model in
    record run {
      model = if is_empty model then run.model else model;
      status = RunStatus.succeeded;
      prompt_tokens = tokens.prompt;
      completion_tokens = tokens.completion;
      total_tokens = tokens.total;
      estimated_cost = estimate_cost w.config tokens.prompt tokens.completion;
      result_summary =
          product.summary +++ (output_part product.response +++ override_part product.applied);
      artifact_ids = snoc run.artifact_ids product.artifact.id;
      ended_at = now;
    }

-- The task of a finished run: a transition that is refused is logged, and the rest goes on.
unfoldable pub finish_task : Artifact → ℕ → Task → Task
finish_task artifact now task =
    try_transition (record task { output_ref = artifact.uri }) done
      "single agent execution completed" now

-- What the sandbox of a finished run takes over from the copy that the run has worked on.
abbrev release_sandbox : Option Sandbox → ℕ → Sandbox → Sandbox
release_sandbox none now x = record x { status = SandboxStatus.released; updated_at = now }
release_sandbox (some worked) now x = record x {
  workspace_branch = worked.workspace_branch;
  workspace_base_ref = worked.workspace_base_ref;
  workspace_head_ref = worked.workspace_head_ref;
  status = SandboxStatus.released;
  updated_at = now;
}

-- The candidate of `executeRun`.
unfoldable pub complete_candidate :
    World → String → Snapshot → Task → AgentRun → Product → ℕ → Service → Persisted
unfolding succeeded_run finish_task
complete_candidate w run_id snap task run product now s =
    let p = capture s in
    let artifact = product.artifact in
    let q = update_sandbox run (release_sandbox product.sandbox now) (record p {
      artifacts = put p.artifacts artifact.id (some artifact);
      artifact_order = push p.artifact_order artifact.project_id artifact.id;
      runs = put p.runs run_id (some (succeeded_run w s snap task run product now));
    }) in
    store_task (finish_task artifact now task) q

-- The last critical section of `executeRun`: nothing happens if the task or the run is gone.
unfoldable pub complete_run :
    Backend → World → Answers → String → Snapshot → Product → ℕ → Service → Service
unfolding complete_candidate install capture
complete_run b w a run_id snap product now s = elim (s.data'.tasks snap.task.id) [
  | none ↦ s
  | some task ↦ elim (s.data'.runs run_id) [
    | none ↦ s
    | some run ↦ install b a (complete_candidate w run_id snap task run product now s) s
  ]
]
