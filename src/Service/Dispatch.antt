-- ===== src/Service/Dispatch.antt =====
-- internal/service/service.go: `DispatchTasks` and `RetryTask`, over the in-process stores and over
-- the repository.
pub mod Again
pub mod Safety
use multi_agent_com.Base.{
  ℕ, String, ◌==◌, ◌+++◌, ◌&&◌, ◌||◌, not, Bool, Option, none, some, List, [], ◌∷◌, last?, Map, put,
  if◌then◌else◌,
}
use multi_agent_com.Domain.Records.{Project, Plan, Contract}
use multi_agent_com.Domain.Task.{Task, new_task, is_failed}
use multi_agent_com.Service.State.{
  Persisted, Service, World, Result, ok, err, Error, plain, not_found_error, validation_error,
  conflict_error, persist, store_result, capture, restore, push, or_fail, guard, ◌>>=◌, ◌>>◌,
}
use multi_agent_com.Service.Logs.{record_communication}
use multi_agent_com.Service.Tasks.{resolve_task}
use multi_agent_com.Service.Start.{Backend, in_process, repository, Answers}

pub record PlanAndContract : Type 0 where
  pub project : Project
  pub plan : Plan
  pub contract : Contract

-- `resolveLatestPlanAndContractLocked`, after the project has been found.
unfoldable pub latest_plan_and_contract : Persisted → String → Result PlanAndContract
latest_plan_and_contract p project_id = do
  project ← or_fail (p.projects project_id) (not_found_error "project not found")
  plan ←
      or_fail (last? (p.plans project_id)) (validation_error "no plan available for task dispatch")
  contract ←
      or_fail (last? (p.contracts project_id))
        (validation_error "no contract available for task dispatch")
  ok (record { project = project; plan = plan; contract = contract })

-- The three types of the tasks that a dispatch makes.
unfoldable pub is_dispatch_type : String → Bool
is_dispatch_type kind =
    (kind == "BACKEND_IMPLEMENTATION")
    || (kind == "FRONTEND_IMPLEMENTATION")
    || (kind == "INTEGRATION_REVIEW")

abbrev pub contract_ref : String → String
contract_ref contract_id = "contract://" +++ contract_id

abbrev pub is_dispatched : String → String → Task → Bool
is_dispatched plan_id contract_id task =
    (task.plan_id == plan_id)
    && (task.input_ref == contract_ref contract_id)
    && is_dispatch_type task.type

-- `findDispatchedTasksLocked`
unfoldable pub find_dispatched : Map (Option Task) → String → String → List String → List Task
find_dispatched tasks plan_id contract_id [] = []
find_dispatched tasks plan_id contract_id (id ∷ ids) =
    let rest = find_dispatched tasks plan_id contract_id ids in
    elim (tasks id) [
      | none ↦ rest
      | some task ↦ if is_dispatched plan_id contract_id task then task ∷ rest else rest
    ]

-- The IDs that `nextID` draws for one dispatch.
pub record DispatchIds : Type 0 where
  pub backend : String
  pub frontend : String
  pub integration : String
  pub backend_log : String
  pub frontend_log : String
  pub integration_log : String

module _ (ids : DispatchIds) (project_id : String) (pc : PlanAndContract) (now : ℕ) where
  unfoldable pub backend_task : Task
  unfolding new_task
  backend_task =
      new_task ids.backend project_id pc.plan.id
        ("Build backend implementation for " +++ pc.plan.title) "BACKEND_IMPLEMENTATION"
        "go-backend-agent" [] (contract_ref pc.contract.id) now

  unfoldable pub frontend_task : Task
  unfolding new_task
  frontend_task =
      new_task ids.frontend project_id pc.plan.id
        ("Build frontend implementation for " +++ pc.plan.title) "FRONTEND_IMPLEMENTATION"
        "vue-frontend-agent" [] (contract_ref pc.contract.id) now

  unfoldable pub integration_task : Task
  unfolding new_task
  integration_task =
      new_task ids.integration project_id pc.plan.id ("Merge and verify " +++ pc.plan.title)
        "INTEGRATION_REVIEW" "integration-agent" (ids.backend ∷ ids.frontend ∷ [])
        (contract_ref pc.contract.id) now

abbrev pub touch_project : Project → String → ℕ → Persisted → Persisted
touch_project project project_id now p = record p {
  projects = put p.projects project_id (some (record project { updated_at = now }));
}

-- A new task in the map and at the end of the order.
abbrev pub append_task : String → Task → Persisted → Persisted
append_task project_id task p = record p {
  tasks = put p.tasks task.id (some task);
  task_order = push p.task_order project_id task.id;
}

-- One round of the loop over the new tasks.
unfoldable pub dispatch_task : World → String → String → ℕ → Task → Persisted → Persisted
unfolding record_communication
dispatch_task w log_id project_id now task p =
    record_communication w log_id project_id "manager-agent" task.assignee_agent "TASK_DISPATCH"
      task.id task.input_ref now (append_task project_id task p)

-- The state with the three tasks.
unfoldable pub dispatched :
    World → DispatchIds → String → PlanAndContract → ℕ → Persisted → Persisted
unfolding dispatch_task
dispatched w ids project_id pc now p =
    dispatch_task w ids.integration_log project_id now (integration_task ids project_id pc now) (
      dispatch_task w ids.frontend_log project_id now (frontend_task ids project_id pc now)
        (dispatch_task w ids.backend_log project_id now (backend_task ids project_id pc now) p))

pub record DispatchTasksResult : Type 0 where
  pub contract : Contract
  pub tasks : List Task

abbrev pub new_tasks : DispatchIds → String → PlanAndContract → ℕ → DispatchTasksResult
new_tasks ids project_id pc now = record {
  contract = pc.contract;
  tasks =
      backend_task ids project_id pc now
      ∷ frontend_task ids project_id pc now
      ∷ integration_task ids project_id pc now
      ∷ [];
}

-- A change of the persisted state and what the stores make of it: in process the change stands
-- whatever `SaveState` answers; over the repository a candidate is installed once it is stored.
unfoldable pub commit {ℓ} :
    {A : Type ℓ} → Backend → Answers → (Persisted → Persisted) → A → Service → Service × Result A
unfolding persist store_result capture restore
commit in_process a change result s =
    (record s { data' = change s.data' }, persist a.save >>= λ _. ok result)
commit repository a change result s = elim (store_result a.repo) [
  | ok _ ↦ (restore a.visits (change (capture s)), ok result)
  | err e ↦ (s, err e)
]

-- After the checks: tasks that are there already are returned, and nothing changes.
unfoldable pub dispatch_new :
    Backend
    → World
    → Answers
    → DispatchIds
    → String
    → PlanAndContract
    → ℕ
    → Service
    → Service × Result DispatchTasksResult
unfolding commit dispatched
dispatch_new b w a ids project_id pc now s =
    elim (find_dispatched s.data'.tasks pc.plan.id pc.contract.id (s.data'.task_order project_id)) [
      | t ∷ ts ↦ (s, ok (record { contract = pc.contract; tasks = t ∷ ts }))
      | [] ↦
          commit b a
            (λ p. dispatched w ids project_id pc now (touch_project pc.project project_id now p))
            (new_tasks ids project_id pc now) s
    ]

-- `DispatchTasks`
unfoldable pub dispatch_tasks :
    Backend
    → World
    → Answers
    → DispatchIds
    → String
    → ℕ
    → Service
    → Service × Result DispatchTasksResult
unfolding dispatch_new
dispatch_tasks b w a ids project_id now s = elim a.lock [
  | some e ↦ (s, err (plain e))
  | none ↦ elim (latest_plan_and_contract s.data' project_id) [
    | err e ↦ (s, err e)
    | ok pc ↦ dispatch_new b w a ids project_id pc now s
  ]
]

-- The task that `RetryTask` makes of a failed one.
unfoldable pub retry_of : String → String → Task → ℕ → Task
unfolding new_task
retry_of id project_id task now =
    new_task id project_id task.plan_id (task.name +++ " (retry)") task.type task.assignee_agent
      task.depends_on task.input_ref now

pub record Retried : Type 0 where
  pub project : Project
  pub task : Task

-- The checks of `RetryTask`.
unfoldable pub prepare_retry : Persisted → String → String → Result Retried
prepare_retry p project_id task_id = do
  project ← or_fail (p.projects project_id) (not_found_error "project not found")
  task ← resolve_task p project_id task_id
  guard (is_failed task.status) (conflict_error "only failed tasks can be retried")
  ok (record { project = project; task = task })

-- `RetryTask`
unfoldable pub retry_task :
    Backend → Answers → String → String → String → ℕ → Service → Service × Result Task
unfolding prepare_retry commit
retry_task b a id project_id task_id now s = elim (prepare_retry s.data' project_id task_id) [
  | err e ↦ (s, err e)
  | ok r ↦
      let task = retry_of id project_id r.task now in
      commit b a (λ p. append_task project_id task (touch_project r.project project_id now p)) task
        s
]
