-- ===== src/Service/Runs.antt =====
-- internal/service/service.go: the start of a run of one task.
pub mod Outcomes
pub mod Safety
use multi_agent_com.Base.{
  ℕ, String, ◌+++◌, none, some, [], ◌∷◌, trim, is_empty, join, put, set_last, if◌then◌else◌, false,
}
use multi_agent_com.Domain.Records.{Sandbox, active, AgentRun, running}
use multi_agent_com.Domain.Task.{Task, in_progress, failed, moved, refused, transition_to}
use multi_agent_com.Domain.Audit.{try_transition}
use multi_agent_com.Service.State.{
  Service, World, Config, Result, ok, err, conflict_error, internal_error, error_text, push,
}
use multi_agent_com.Service.Logs.{record_communication}
use multi_agent_com.Service.Tasks.{store_task, ensure_task_ready}

-- The IDs that `nextID` draws for one start.
pub record StartIds : Type 0 where
  pub sandbox : String
  pub run : String
  pub communication : String

pub record RunEnvelope : Type 0 where
  pub task : Task
  pub run : AgentRun

-- `runtimeProviderName`
unfoldable pub runtime_provider_name : Config → String
runtime_provider_name cfg =
    if is_empty (trim cfg.runtime_provider)
    then elim cfg.registry_default [
      | none ↦ "local"
      | some provider ↦ if is_empty (trim provider) then "local" else trim provider
    ]
    else trim cfg.runtime_provider

-- The agent that runs a task: its assignee, or the default one.
unfoldable pub run_agent : Config → Task → String
run_agent cfg task =
    if is_empty (trim task.assignee_agent) then cfg.default_agent else task.assignee_agent

-- The sandbox of `createPrivateSandboxLocked`, as it is handed to the workspace provider.
unfoldable pub private_sandbox : World → String → String → Task → String → ℕ → Sandbox
private_sandbox w id project_id task agent now =
    let root = join "/" (w.config.sandbox_root ∷ project_id ∷ id ∷ []) in
    let workspace = join "/" (root ∷ "workspace" ∷ []) in
    record {
      id = id;
      project_id = project_id;
      run_id = "";
      task_id = task.id;
      agent_type = agent;
      scope = "PRIVATE";
      root_path = root;
      workspace_path = workspace;
      workspace_provider = w.workspace.name;
      workspace_manifest_ref =
          "file://" +++ join "/" (workspace ∷ ".multiagent" ∷ "workspace-manifest.json" ∷ []);
      workspace_branch = "";
      workspace_base_ref = "";
      workspace_head_ref = "";
      workspace_cleanup_status = "";
      workspace_cleaned_at = 0;
      workspace_cleanup_reason = "";
      workspace_cleanup_error = "";
      workspace_worktree_gone = false;
      workspace_branch_gone = false;
      workspace_retained_ref = "";
      status = active;
      failure_reason = "";
      created_at = now;
      updated_at = now;
    }

-- `createPrivateSandboxLocked`. Nothing changes where the provider fails.
unfoldable pub create_private_sandbox :
    World → String → String → Task → String → ℕ → Service → Result (Service × Sandbox)
unfolding private_sandbox
create_private_sandbox w id project_id task agent now s =
    elim (w.workspace.create_private (private_sandbox w id project_id task agent now) task) [
      | none ↦ err (internal_error "SANDBOX_CREATE_FAILED" "sandbox workspace could not be created")
      | some sandbox ↦ ok (
        record {
          data' = record s.data' { sandboxes = push s.data'.sandboxes project_id sandbox };
          index = record s.index {
            sandbox_index = put s.index.sandbox_index sandbox.id (some sandbox);
          };
        },
        sandbox,
      )
    ]

unfoldable pub new_run : World → String → String → Task → String → Sandbox → ℕ → AgentRun
unfolding runtime_provider_name
new_run w id project_id task agent sandbox now = record {
  id = id;
  project_id = project_id;
  task_id = task.id;
  agent_type = agent;
  model = "runtime-" +++ runtime_provider_name w.config;
  sandbox_id = sandbox.id;
  status = running;
  prompt_tokens = 0;
  completion_tokens = 0;
  total_tokens = 0;
  estimated_cost = 0;
  result_summary = "";
  error = "";
  artifact_ids = [];
  started_at = now;
  ended_at = 0;
}

-- The rest of `startTaskRunLocked`, once the sandbox stands: the run is bound to the sandbox,
-- which the list and the index share, and recorded.
unfoldable pub record_run :
    World → StartIds → String → Task → String → ℕ → Service → Sandbox → Service
unfolding record_communication
record_run w ids project_id task agent now s sandbox =
    let bound = record sandbox { run_id = ids.run; updated_at = now } in
    let run = new_run w ids.run project_id task agent sandbox now in
    let p = record s.data' {
      sandboxes = put s.data'.sandboxes project_id (set_last (s.data'.sandboxes project_id) bound);
      runs = put s.data'.runs ids.run (some run);
      run_order = push s.data'.run_order project_id ids.run;
    } in
    record {
      data' =
          record_communication w ids.communication project_id "orchestrator" agent "RUN_START"
            task.id ("run://" +++ ids.run) now p;
      index = record s.index { sandbox_index = put s.index.sandbox_index sandbox.id (some bound) };
    }

-- `startTaskRunLocked` after the task has moved to IN_PROGRESS.
unfoldable pub start_moved :
    World → StartIds → String → Task → ℕ → Service → Service × Result RunEnvelope
unfolding run_agent
start_moved w ids project_id task now s =
    let agent = run_agent w.config task in
    elim (create_private_sandbox w ids.sandbox project_id task agent now s) [
      | err e ↦ (
        record s { data' = store_task (try_transition task failed (error_text e) now) s.data' },
        err e,
      )
      | ok (s', sandbox) ↦ (
        record_run w ids project_id task agent now s' sandbox,
        ok (record { task = task; run = new_run w ids.run project_id task agent sandbox now }),
      )
    ]

-- `startTaskRunLocked`
unfoldable pub start_task_run :
    World → StartIds → String → Task → ℕ → String → Service → Service × Result RunEnvelope
start_task_run w ids project_id task now reason s = elim (ensure_task_ready s.data' task) [
  | err e ↦ (s, err e)
  | ok _ ↦ elim (transition_to task in_progress reason now) [
    | refused message ↦ (s, err (conflict_error message))
    | moved task' ↦
        start_moved w ids project_id task' now (record s { data' = store_task task' s.data' })
  ]
]
