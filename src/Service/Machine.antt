-- ===== src/Service/Machine.antt =====
-- internal/service/service.go: the interleavings of the handlers and of the executors. Each critical
-- section of the mutex is one step, so any order of the steps is a run of the service.
use multi_agent_com.Base.{ℕ, String, ◌≡◌, Option, none, some, List}
use multi_agent_com.Domain.Records.{AgentRun}
use multi_agent_com.Service.State.{Service, World, Error}
use multi_agent_com.Service.Runs.{StartIds}
use multi_agent_com.Service.Runs.Safety.{IsSound}
use multi_agent_com.Service.Start.{Backend, Answers, start_run}
use multi_agent_com.Service.Start.Replies.{start_run-IsSound}
use multi_agent_com.Service.Parallel.{start_parallel_run}
use multi_agent_com.Service.Parallel.Safety.{FreshRuns, start_parallel_run-IsSound}
use multi_agent_com.Service.Dispatch.{DispatchIds, dispatch_tasks, retry_task}
use multi_agent_com.Service.Dispatch.Safety.{Unused, dispatch_tasks-IsSound, retry_task-IsSound}
use multi_agent_com.Service.Execution.{Snapshot, take_sandbox_failure, apply_pending_override}
use multi_agent_com.Service.Overrides.{OverrideInput, OverrideIds, apply_human_override}
use multi_agent_com.Service.Overrides.Safety.{apply_human_override-IsSound}
use multi_agent_com.Service.Locks.{CodeLockInput, LockIds, apply_code_lock}
use multi_agent_com.Service.Locks.Symbols.{GoTools}
use multi_agent_com.Service.Locks.Exclusive.{apply_code_lock-IsSound}
use multi_agent_com.Service.Conflicts.{ResolveInput, resolve_conflict}
use multi_agent_com.Service.Conflicts.Once.{resolve_conflict-IsSound}
use multi_agent_com.Service.Finish.{Product, fail_run, complete_run}
use multi_agent_com.Service.Finish.Safety.{
  fail_run-IsSound, complete_run-IsSound, apply_pending_override-IsSound,
  take_sandbox_failure-IsSound,
}
use multi_agent_com.Service.Planning.{
  CreateProjectInput, create_project, AddRequirementInput, add_requirement,
}
use multi_agent_com.Service.Planning.Contracting.{
  PlanIds, generate_plan, generate_contract, ValidateContractInput, validate_contract,
}
use multi_agent_com.Service.Planning.Safety.{
  create_project-IsSound, add_requirement-IsSound, generate_plan-IsSound, generate_contract-IsSound,
  validate_contract-IsSound,
}

-- A handler or a critical section of an executor. The IDs that it draws are not in use; an
-- executor finishes a run with the task that the run was prepared with.
pub data Step (b : Backend) (w : World) (s : Service) : Service → Type 0 where
  creates :
      (a : Answers) (id audit_id actor : String) (input : CreateProjectInput) (now : ℕ)
      → Step b w s (create_project b a id audit_id actor input now s).0
  requires :
      (a : Answers) (id audit_id actor project_id : String) (input : AddRequirementInput) (now : ℕ)
      → Step b w s (add_requirement b a id audit_id actor project_id input now s).0
  plans :
      (a : Answers) (ids : PlanIds) (actor project_id : String) (now : ℕ)
      → s.data'.tasks ids.task ≡ none
      → Step b w s (generate_plan b w a ids actor project_id now s).0
  contracts :
      (a : Answers) (id project_id : String) (now : ℕ)
      → Step b w s (generate_contract b w a id project_id now s).0
  validates :
      (a : Answers) (id project_id : String) (input : ValidateContractInput) (now : ℕ)
      → s.data'.tasks id ≡ none
      → Step b w s (validate_contract b w a id project_id input now s).0
  dispatches :
      (a : Answers) (ids : DispatchIds) (project_id : String) (now : ℕ)
      → Unused ids s.data'
      → Step b w s (dispatch_tasks b w a ids project_id now s).0
  retries :
      (a : Answers) (id project_id task_id : String) (now : ℕ)
      → s.data'.tasks id ≡ none
      → Step b w s (retry_task b a id project_id task_id now s).0
  starts :
      (a : Answers) (ids : StartIds) (project_id task_id : String) (now : ℕ)
      → s.data'.runs ids.run ≡ none
      → Step b w s (start_run b w a ids project_id task_id now s).state
  starts_parallel :
      (a : Answers) (ids : String → StartIds) (batch project_id : String) (task_ids : List String)
      (now : ℕ)
      → FreshRuns ids s
      → Step b w s (start_parallel_run b w a ids batch project_id task_ids now s).state
  overrides :
      (a : Answers) (ids : OverrideIds) (project_id actor : String) (input : OverrideInput)
      (now : ℕ)
      → Step b w s (apply_human_override w a ids project_id actor input now s).state
  locks :
      (g : GoTools) (a : Answers) (ids : LockIds) (project_id actor : String)
      (input : CodeLockInput) (now : ℕ)
      → Step b w s (apply_code_lock w g a ids project_id actor input now s).state
  resolves :
      (a : Answers) (audit_id actor project_id conflict_id : String) (input : ResolveInput)
      (now : ℕ)
      → Step b w s (resolve_conflict a audit_id actor project_id conflict_id input now s).0
  takes_fault : (task_id : String) → Step b w s (take_sandbox_failure task_id s).0
  reaches_checkpoint :
      (save : Option String) (run_id : String) (now : ℕ)
      → Step b w s (apply_pending_override save run_id now s).0
  completes :
      (a : Answers) (run_id : String) (snap : Snapshot) (product : Product) (now : ℕ)
      → ((r : AgentRun) → s.data'.runs run_id ≡ some r → r.task_id ≡ snap.task.id)
      → Step b w s (complete_run b w a run_id snap product now s)
  fails :
      (a : Answers) (alert_id run_id : String) (failure : Error) (now : ℕ)
      → Step b w s (fail_run b w a alert_id run_id failure now s)

-- Any number of steps, of any handlers and executors.
pub data Reach (b : Backend) (w : World) (s : Service) : Service → Type 0 where
  here : Reach b w s s
  after : {t u : Service} → Reach b w s t → Step b w t u → Reach b w s u

pub Step-IsSound : (b : Backend) (w : World) (s t : Service) → Step b w s t → IsSound s → IsSound t
Step-IsSound b w s _ (creates a id audit_id actor input now) inv =
    create_project-IsSound b a id audit_id actor input now s inv
Step-IsSound b w s _ (requires a id audit_id actor project_id input now) inv =
    add_requirement-IsSound b a id audit_id actor project_id input now s inv
Step-IsSound b w s _ (plans a ids actor project_id now u) inv =
    generate_plan-IsSound b w a ids actor project_id now s inv u
Step-IsSound b w s _ (contracts a id project_id now) inv =
    generate_contract-IsSound b w a id project_id now s inv
Step-IsSound b w s _ (validates a id project_id input now u) inv =
    validate_contract-IsSound b w a id project_id input now s inv u
Step-IsSound b w s _ (dispatches a ids project_id now u) inv =
    dispatch_tasks-IsSound b w a ids project_id now s inv u
Step-IsSound b w s _ (retries a id project_id task_id now u) inv =
    retry_task-IsSound b a id project_id task_id now s inv u
Step-IsSound b w s _ (starts a ids project_id task_id now u) inv =
    start_run-IsSound b w a ids project_id task_id now s inv u
Step-IsSound b w s _ (starts_parallel a ids batch project_id task_ids now u) inv =
    start_parallel_run-IsSound b w a ids batch project_id task_ids now s inv u
Step-IsSound b w s _ (overrides a ids project_id actor input now) inv =
    apply_human_override-IsSound w a ids project_id actor input now s inv
Step-IsSound b w s _ (locks g a ids project_id actor input now) inv =
    apply_code_lock-IsSound w g a ids project_id actor input now s inv
Step-IsSound b w s _ (resolves a audit_id actor project_id conflict_id input now) inv =
    resolve_conflict-IsSound a audit_id actor project_id conflict_id input now s inv
Step-IsSound b w s _ (takes_fault task_id) inv = take_sandbox_failure-IsSound task_id s inv
Step-IsSound b w s _ (reaches_checkpoint save run_id now) inv =
    apply_pending_override-IsSound save run_id now s inv
Step-IsSound b w s _ (completes a run_id snap product now own) inv =
    complete_run-IsSound b w a run_id snap product now s inv own
Step-IsSound b w s _ (fails a alert_id run_id failure now) inv =
    fail_run-IsSound b w a alert_id run_id failure now s inv

-- A service without tasks and runs.
pub record IsFresh (s : Service) : Type 0 where
  pub no_tasks : (k : String) → s.data'.tasks k ≡ none
  pub no_runs : (k : String) → s.data'.runs k ≡ none

pub IsFresh-IsSound : (s : Service) → IsFresh s → IsSound s
IsFresh-IsSound s f = record {
  keyed = λ k t e. absurd (cc (f.no_tasks k, e));
  started = λ k r e. absurd (cc (f.no_runs k, e));
  single = λ k j r q e. absurd (cc (f.no_runs k, e));
}

-- However the handlers and the executors interleave, and whatever the stores answer: from a service
-- without tasks and runs on, if the IDs drawn are not in use and an executor ends a run with the
-- task that the run was prepared with, every task stands under its ID with an audit trail that
-- follows the diagram, every run has a task, which has begun and is in work while the run is
-- RUNNING, and no task has two runs.
pub Reach-IsSound :
    (b : Backend) (w : World) (s t : Service) → IsFresh s → Reach b w s t → IsSound t
Reach-IsSound b w s _ f here = IsFresh-IsSound s f
Reach-IsSound b w s _ f (after {t} {u} path step) =
    Step-IsSound b w t u step (Reach-IsSound b w s t f path)
