-- ===== src/Service/Parallel.antt =====
-- internal/service/service.go: the handler `StartParallelRun`.
pub mod Selected
pub mod Safety
use multi_agent_com.Base.{
  ℕ, String, ◌==◌, not, true, false, none, some, List, [], ◌∷◌, map, length, ltb, contains,
  if◌then◌else◌, ◌||◌,
}
use multi_agent_com.Domain.Task.{Task, is_created}
use multi_agent_com.Service.State.{
  Persisted, Service, World, Result, ok, err, plain, not_found_error, validation_error,
  conflict_error, persist, store_result, capture, restore, or_fail, guard, ◌>>=◌, ◌>>◌,
}
use multi_agent_com.Service.Tasks.{resolve_task, ensure_task_ready}
use multi_agent_com.Service.Budget.{ensure_token_budget}
use multi_agent_com.Service.Runs.{StartIds, RunEnvelope, start_task_run}
use multi_agent_com.Service.Start.{Backend, in_process, repository, Answers, Reply, refuse}

-- The tasks that may start, and those that may not.
pub record Selection : Type 0 where
  pub selected : List Task
  pub blocked : List Task

abbrev pub add_task : Persisted → Task → Selection → Selection
add_task p task rest = elim (ensure_task_ready p task) [
  | ok _ ↦ record rest { selected = task ∷ rest.selected }
  | err _ ↦ record rest { blocked = task ∷ rest.blocked }
]

abbrev pub no_tasks : Selection
no_tasks = record { selected = []; blocked = [] }

-- The loop over the given IDs; `seen` holds the IDs that have passed.
unfoldable pub select_given : Persisted → String → List String → List String → Result Selection
select_given p project_id seen [] = ok no_tasks
select_given p project_id seen (id ∷ ids) = elim (resolve_task p project_id id) [
  | err e ↦ err e
  | ok task ↦ elim (contains seen task.id) [
    | true ↦ select_given p project_id seen ids
    | false ↦ select_given p project_id (task.id ∷ seen) ids >>= λ rest. ok (add_task p task rest)
  ]
]

-- The loop over the project's tasks.
unfoldable pub select_ready : Persisted → List String → Selection
select_ready p [] = no_tasks
select_ready p (id ∷ ids) =
    let rest = select_ready p ids in
    elim (p.tasks id) [
      | none ↦ rest
      | some task ↦
          if (task.type == "SPRINT1_EXECUTE") || not (is_created task.status)
          then rest
          else add_task p task rest
    ]

abbrev has_selected : Selection → String → Result Selection
has_selected sel message = elim sel.selected [ [] ↦ err (conflict_error message) | t ∷ ts ↦ ok sel ]

-- `resolveParallelTasksLocked`
unfoldable pub resolve_parallel_tasks : Persisted → String → List String → Result Selection
resolve_parallel_tasks p project_id [] =
    has_selected (select_ready p (p.task_order project_id))
      "no ready tasks available for parallel execution"
resolve_parallel_tasks p project_id (id ∷ ids) = do
  sel ← select_given p project_id [] (id ∷ ids)
  has_selected sel "no selected tasks are ready for parallel execution"

-- The budget of every selected task.
unfoldable pub budgets_allow : World → Service → String → List Task → Result (Unit {0})
budgets_allow w s project_id [] = ok tt
budgets_allow w s project_id (task ∷ tasks) =
    ensure_token_budget w s project_id task >>= λ _. budgets_allow w s project_id tasks

-- What the pointer to a task shows now.
abbrev current : Service → Task → Task
current s task = elim (s.data'.tasks task.id) [ none ↦ task | some t ↦ t ]

-- The loop that starts the selected tasks; each start draws its own IDs.
unfoldable pub start_all :
    World
    → (String → StartIds)
    → String
    → ℕ
    → Service
    → List Task
    → Service × Result (List RunEnvelope)
start_all w ids project_id now s [] = (s, ok [])
start_all w ids project_id now s (task ∷ tasks) =
    let (s', r) =
      start_task_run w (ids task.id) project_id (current s task) now "parallel execution started"
        s in
    elim r [
      | err e ↦ (s', err e)
      | ok envelope ↦
          let (s'', rs) = start_all w ids project_id now s' tasks in
          (s'', rs >>= λ envelopes. ok (envelope ∷ envelopes))
    ]

pub record ParallelRunResult : Type 0 where
  pub batch_id : String
  pub started : List RunEnvelope
  pub blocked_tasks : List Task

-- The checks ahead of the starts.
unfoldable pub prepare_parallel : World → Service → String → List String → Result Selection
prepare_parallel w s project_id task_ids = do
  guard (not (ltb 50 (length task_ids))) (validation_error "taskIds exceeds maximum of 50")
  _ ← or_fail (s.data'.projects project_id) (not_found_error "project not found")
  sel ← resolve_parallel_tasks s.data' project_id task_ids
  budgets_allow w s project_id sel.selected
  ok sel

abbrev run_ids : List RunEnvelope → List String
run_ids = map λ e. e.run.id

abbrev parallel_reply : Service → String → List RunEnvelope → List Task → Reply ParallelRunResult
parallel_reply s batch started blocked = record {
  state = s;
  result = ok (record { batch_id = batch; started = started; blocked_tasks = blocked });
  launched = run_ids started;
}

-- What follows the starts. A start that fails ends the handler with the state as it is then.
unfoldable pub finish_parallel :
    Backend
    → Answers
    → String
    → List Task
    → Service
    → Service
    → Result (List RunEnvelope)
    → Reply ParallelRunResult
finish_parallel b a batch blocked original s (err e) = refuse s e
finish_parallel in_process a batch blocked original s (ok started) = elim (persist a.save) [
  | ok _ ↦ parallel_reply s batch started blocked
  | err e ↦ refuse s e
]
finish_parallel repository a batch blocked original s (ok started) = elim (store_result a.repo) [
  | ok _ ↦ parallel_reply (restore a.visits (capture s)) batch started blocked
  | err e ↦ refuse (restore a.visits (capture original)) e
]

-- `StartParallelRun`
unfoldable pub start_parallel_run :
    Backend
    → World
    → Answers
    → (String → StartIds)
    → String
    → String
    → List String
    → ℕ
    → Service
    → Reply ParallelRunResult
unfolding prepare_parallel finish_parallel
start_parallel_run b w a ids batch project_id task_ids now s = elim a.lock [
  | some e ↦ refuse s (plain e)
  | none ↦ elim (prepare_parallel w s project_id task_ids) [
    | err e ↦ refuse s e
    | ok sel ↦
        let (s', r) = start_all w ids project_id now s sel.selected in
        finish_parallel b a batch sel.blocked s s' r
  ]
]
