-- ===== src/Service/Execution.antt =====
-- internal/service/service.go: `executeRun` and `failRun`. Each critical section of the mutex is
-- one function of the state; between them other goroutines may change it.
use multi_agent_com.Base.{
  ℕ, ◌+◌, String, ◌==◌, ◌+++◌, Bool, ◌&&◌, Option, none, some, put, find_last, update_last, trim,
  fields, join, is_empty, eqb, ltb, if◌then◌else◌,
}
use Prim.Native.String.{len, slice}
use multi_agent_com.Base.Int.{ℤ, clamp}
use multi_agent_com.Domain.Records.{Project, Plan, Sandbox, AgentRun, HumanOverride}
use multi_agent_com.Domain.Task.{
  Task, in_progress, moved, refused, transition_to, is_human_override,
}
use multi_agent_com.Service.State.{
  Service, Result, ok, err, plain, not_found_error, conflict_error, persist,
}
use multi_agent_com.Service.Leases.{lease_active}
use multi_agent_com.Service.Tasks.{store_task}
use multi_agent_com.Service.Budget.{Tokens}

-- `snapshotForExecution`: what a run works on.
pub record Snapshot : Type 0 where
  pub run : AgentRun
  pub task : Task
  pub plan : Plan
  pub project : Project
  pub sandbox : Option Sandbox

abbrev or_plain {ℓ} : {A B : Type ℓ} → Option A → String → (A → Result B) → Result B
or_plain none message f = err (plain message)
or_plain (some a) message f = f a

unfoldable pub snapshot_for_execution : Service → String → Result Snapshot
snapshot_for_execution s run_id = or_plain (s.data'.runs run_id) "run not found" λ run.
    or_plain (s.data'.tasks run.task_id) "task not found" λ task.
      or_plain (s.index.plan_index task.plan_id) "plan not found" λ plan.
        or_plain (s.data'.projects run.project_id) "project not found" λ project. ok (record {
          run = run;
          task = task;
          plan = plan;
          project = project;
          sandbox = if is_empty run.sandbox_id then none else s.index.sandbox_index run.sandbox_id;
        })

-- `sandboxFailureForTask`: a fault is taken once.
unfoldable pub take_sandbox_failure : String → Service → Service × String
take_sandbox_failure task_id s =
    let failure = trim (s.data'.sandbox_faults task_id) in
    if is_empty failure then (s, "") else (
      record s {
        data' = record s.data' { sandbox_faults = put s.data'.sandbox_faults task_id "" };
      },
      failure,
    )

-- An override that waits for the checkpoint of the task.
unfoldable pub is_pending : ℕ → String → HumanOverride → Bool
unfolding lease_active
is_pending now task_id o =
    (o.task_id == task_id) && eqb o.applied_at 0 && lease_active now o.expires_at

-- The override is marked in the list and in the index, which share it.
unfoldable pub mark_applied : ℕ → Task → String → HumanOverride → Service → Service
mark_applied now task project_id o s =
    let applied = record o { applied_at = now } in
    record {
      data' = record s.data' {
        overrides =
            put s.data'.overrides project_id
              (update_last (is_pending now task.id) (λ _. applied) (s.data'.overrides project_id));
      };
      index = record s.index { override_index = put s.index.override_index o.id (some applied) };
    }

abbrev pub leave_override : ℕ → Task → Result Task
leave_override now task =
    if is_human_override task.status
    then elim (transition_to task in_progress "human override applied at safety checkpoint" now) [
      | moved task' ↦ ok task'
      | refused message ↦ err (conflict_error message)
    ]
    else ok task

-- `applyPendingHumanOverrideLocked`, given what `SaveState` answers.
unfoldable pub apply_pending_override :
    Option String → String → ℕ → Service → Service × Result (Option HumanOverride)
unfolding mark_applied
apply_pending_override save run_id now s = elim (s.data'.runs run_id) [
  | none ↦ (s, err (not_found_error "run not found"))
  | some run ↦ elim (s.data'.tasks run.task_id) [
    | none ↦ (s, err (not_found_error "task not found"))
    | some task ↦ elim (find_last (is_pending now task.id) (s.data'.overrides run.project_id)) [
      | none ↦ (s, ok none)
      | some o ↦
          let marked = mark_applied now task run.project_id o s in
          elim (leave_override now task) [
            | err e ↦ (marked, err e)
            | ok task' ↦
                let s' = record marked { data' = store_task task' marked.data' } in
                elim (persist save) [
                  | err e ↦ (s', err e)
                  | ok _ ↦ (s', ok (some (record o { applied_at = now })))
                ]
          ]
    ]
  ]
]

-- `agentruntime.Response`, as far as the service reads it.
pub record Response : Type 0 where
  pub output : String
  pub model : String
  pub prompt_tokens : ℤ
  pub completion_tokens : ℤ
  pub total_tokens : ℤ

-- `normalizeRuntimeUsage`
unfoldable pub normalize_usage : ℤ → ℤ → ℤ → Tokens
normalize_usage p c t =
    let prompt = clamp p in
    let completion = clamp c in
    let total = if eqb (clamp t) 0 then prompt + completion else clamp t in
    record {
      prompt = if ltb 0 total && eqb prompt 0 && eqb completion 0 then total else prompt;
      completion = completion;
      total = total;
    }

-- `compactRuntimeSummary`
unfoldable pub compact_summary : String → String
compact_summary output =
    let compact = join " " (fields (trim output)) in
    if is_empty (trim output)
    then ""
    else if ltb 220 (len compact)
    then slice compact 0 220 +++ "..."
    else compact
