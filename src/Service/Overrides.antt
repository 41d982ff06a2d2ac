-- ===== src/Service/Overrides.antt =====
-- internal/service/service.go: `ApplyHumanOverride` and the queue of conflicts between leases.
pub mod Safety
pub mod Granted
pub mod Conflicted
use multi_agent_com.Base.{
  ℕ, String, ◌==◌, ◌+++◌, Bool, ◌&&◌, ◌||◌, not, true, false, Option, none, some, List, [], ◌∷◌,
  put, trim, is_empty, find_first, find_last, update_first, if◌then◌else◌,
}
use multi_agent_com.Base.Int.{ℤ}
use multi_agent_com.Domain.Records.{Project, AgentRun, RunStatus, HumanOverride, ConflictQueueEntry}
use multi_agent_com.Domain.Task.{
  Task, human_override, is_in_progress, is_human_override, moved, refused, transition_to,
}
use multi_agent_com.Service.State.{
  Persisted, Service, World, Result, ok, err, Error, plain, not_found_error, validation_error,
  conflict_error, persist, push, or_fail, guard, ◌>>=◌, ◌>>◌,
}
use multi_agent_com.Service.Logs.{record_communication, record_audit}
use multi_agent_com.Service.Tasks.{resolve_task, store_task}
use multi_agent_com.Service.Leases.{
  hitl_owner, hitl_expires_at, hitl_override_owner, override_scope, limit_256, validate_length,
}
use multi_agent_com.Service.Start.{Answers}
use multi_agent_com.Service.Execution.{is_pending}
use multi_agent_com.Service.Dispatch.{touch_project}

-- `ApplyHumanOverrideInput`
pub record OverrideInput : Type 0 where
  pub task_id : String
  pub operator : String
  pub owner : String
  pub instruction : String
  pub lock_scope : String
  pub ttl_seconds : ℤ

-- The IDs that `nextID` draws for one override.
pub record OverrideIds : Type 0 where
  pub conflict : String
  pub override : String
  pub communication : String
  pub audit : String

-- `HumanOverrideResult` of a success.
pub record HumanOverrideResult : Type 0 where
  pub override : HumanOverride
  pub task : Task
  pub run : Option AgentRun
  pub message : String

-- What the handler leaves; `conflict` is the queued one, which the result holds beside the error.
pub record OverrideReply : Type 0 where
  pub state : Service
  pub conflict : Option ConflictQueueEntry
  pub result : Result HumanOverrideResult

-- What the checks of `ApplyHumanOverride` have found.
pub record OverrideRequest : Type 0 where
  pub project : Project
  pub task : Task
  pub operator : String
  pub owner : String
  pub instruction : String
  pub lock_scope : String
  pub expires_at : ℕ

-- The checks of `ApplyHumanOverride`, in their order.
unfoldable pub check_override :
    Persisted → String → String → OverrideInput → ℕ → Result OverrideRequest
check_override p project_id actor input now = do
  project ← or_fail (p.projects project_id) (not_found_error "project not found")
  task ← resolve_task p project_id input.task_id
  guard (not (is_empty (trim input.instruction)))
      (validation_error "instruction is required for human override")
  validate_length (trim input.instruction) "instruction" (record { bytes = 8192; digits = "8192" })
  guard (is_in_progress task.status || is_human_override task.status)
      (conflict_error "only in-progress tasks can receive human override")
  validate_length (trim input.operator) "operator" limit_256
  validate_length (trim input.owner) "owner" limit_256
  expires_at ← hitl_expires_at now input.ttl_seconds
  validate_length (trim input.lock_scope) "lockScope" (record { bytes = 64; digits = "64" })
  ok (record {
    project = project;
    task = task;
    operator = trim input.operator;
    owner = hitl_owner actor input.owner (trim input.operator);
    instruction = trim input.instruction;
    lock_scope = if is_empty (trim input.lock_scope) then "TASK" else trim input.lock_scope;
    expires_at = expires_at;
  })

-- A waiting override of the task that covers the same scope, and that another one owns.
unfoldable pub clashes : World → String → String → String → ℕ → HumanOverride → Bool
clashes w task_id scope owner now o =
    is_pending now task_id o
    && not (hitl_override_owner o == owner)
    && (override_scope w o.task_id o.lock_scope == scope)

-- The loop of `findActiveOverrideConflictLocked`.
unfoldable pub find_override_conflict :
    World → List HumanOverride → String → String → String → ℕ → Option HumanOverride
unfolding clashes
find_override_conflict w overrides task_id lock_scope owner now =
    find_first (clashes w task_id (override_scope w task_id lock_scope) owner now) overrides

unfoldable pub new_conflict :
    String
    → String
    → String
    → String
    → String
    → String
    → String
    → String
    → String
    → ℕ
    → ConflictQueueEntry
new_conflict id project_id task_id kind scope resource requested_owner current_owner reason now =
    record {
      id = id;
      project_id = project_id;
      task_id = trim task_id;
      kind = trim kind;
      scope = trim scope;
      resource_id = trim resource;
      requested_owner = trim requested_owner;
      current_owner = trim current_owner;
      reason = trim reason;
      status = "OPEN";
      created_at = now;
      resolved_at = 0;
      resolved_by = "";
      resolution_note = "";
    }

-- `enqueueConflictLocked`
unfoldable pub enqueue_conflict :
    String → String → String → ConflictQueueEntry → ℕ → Service → Service
unfolding record_audit
enqueue_conflict audit_id actor project_id conflict now s = record {
  data' =
      record_audit audit_id actor project_id "HITL_CONFLICT_QUEUED" "conflict" conflict.id
        conflict.reason now
        (record s.data' { conflicts = push s.data'.conflicts project_id conflict });
  index = record s.index {
    conflict_index = put s.index.conflict_index conflict.id (some conflict);
  };
}

-- The conflict that a request for an override meets.
unfoldable pub override_conflict :
    World → String → String → OverrideRequest → HumanOverride → ℕ → ConflictQueueEntry
override_conflict w id project_id r current now =
    new_conflict id project_id r.task.id "human_override" (override_scope w r.task.id r.lock_scope)
      current.id r.owner (hitl_override_owner current)
      "active human override lease is owned by another operator" now

unfoldable pub new_override : String → String → OverrideRequest → ℕ → HumanOverride
new_override id project_id r now = record {
  id = id;
  project_id = project_id;
  task_id = r.task.id;
  operator = if is_empty r.operator then r.owner else r.operator;
  owner = r.owner;
  instruction = r.instruction;
  lock_scope = r.lock_scope;
  expires_at = r.expires_at;
  created_at = now;
  applied_at = 0;
}

-- The task once the override is accepted.
unfoldable pub override_task : OverrideRequest → String → ℕ → Result Task
override_task r operator now =
    if is_in_progress r.task.status
    then elim (transition_to r.task human_override ("human override requested by " +++ operator)
        now) [ moved task ↦ ok task | refused message ↦ err (conflict_error message) ]
    else ok r.task

abbrev is_running : RunStatus → Bool
is_running s = elim s [ RunStatus.running ↦ true | _ ↦ false ]

-- `findActiveRunForTaskLocked`
unfoldable pub active_run : Persisted → String → List String → Option AgentRun
active_run p task_id [] = none
active_run p task_id (id ∷ ids) = elim (active_run p task_id ids) [
  | some run ↦ some run
  | none ↦ elim (p.runs id) [
    | none ↦ none
    | some run ↦ if (run.task_id == task_id) && is_running run.status then some run else none
  ]
]

-- The override in the list, in the index and in the logs.
unfoldable pub record_override :
    World → OverrideIds → String → String → Project → Task → HumanOverride → ℕ → Service → Service
unfolding record_communication record_audit store_task
record_override w ids project_id actor project task o now s = record {
  data' = touch_project project project_id now (
      record_audit ids.audit actor project_id "HUMAN_OVERRIDE_APPLY" "override" o.id
        ("human override queued for task " +++ task.id) now
        (record_communication w ids.communication project_id ("human:" +++ o.operator)
          task.assignee_agent "HUMAN_OVERRIDE" task.id ("override://" +++ o.id) now
          (record (store_task task s.data') { overrides = push s.data'.overrides project_id o })));
  index = record s.index { override_index = put s.index.override_index o.id (some o) };
}

-- The rest of `ApplyHumanOverride`, where no other lease is in the way.
unfoldable pub accept_override :
    World → Answers → OverrideIds → String → String → OverrideRequest → ℕ → Service → OverrideReply
unfolding record_override new_override
accept_override w a ids project_id actor r now s =
    let o = new_override ids.override project_id r now in
    elim (override_task r o.operator now) [
      | err e ↦ record { state = s; conflict = none; result = err e }
      | ok task ↦
          let s' = record_override w ids project_id actor r.project task o now s in
          record {
            state = s';
            conflict = none;
            result = persist a.save >>= λ _. ok (record {
              override = o;
              task = task;
              run = active_run s'.data' task.id (s'.data'.run_order project_id);
              message = "human override queued for next safety checkpoint";
            });
          }
    ]

-- A conflict is queued, and reported as an error.
unfoldable pub queue_override_conflict :
    World
    → Answers
    → OverrideIds
    → String
    → String
    → OverrideRequest
    → HumanOverride
    → ℕ
    → Service
    → OverrideReply
unfolding enqueue_conflict
queue_override_conflict w a ids project_id actor r current now s =
    let conflict = override_conflict w ids.conflict project_id r current now in
    let queued = enqueue_conflict ids.audit actor project_id conflict now s in
    let s' = record queued { data' = touch_project r.project project_id now queued.data' } in
    elim (persist a.save) [
      | err e ↦ record { state = s'; conflict = none; result = err e }
      | ok _ ↦ record {
        state = s';
        conflict = some conflict;
        result = err (conflict_error "human override lease conflict queued");
      }
    ]

-- `ApplyHumanOverride`
unfoldable pub apply_human_override :
    World → Answers → OverrideIds → String → String → OverrideInput → ℕ → Service → OverrideReply
unfolding accept_override queue_override_conflict find_override_conflict
apply_human_override w a ids project_id actor input now s = elim a.lock [
  | some e ↦ record { state = s; conflict = none; result = err (plain e) }
  | none ↦ elim (check_override s.data' project_id actor input now) [
    | err e ↦ record { state = s; conflict = none; result = err e }
    | ok r ↦
        elim (find_override_conflict w (s.data'.overrides project_id) r.task.id r.lock_scope r.owner
          now) [
            | some current ↦ queue_override_conflict w a ids project_id actor r current now s
            | none ↦ accept_override w a ids project_id actor r now s
          ]
  ]
]
