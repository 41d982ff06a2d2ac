-- ===== src/Service/Dispatch/Safety.antt =====
-- internal/service/service.go: `DispatchTasks`, `RetryTask` and the invariant.
use multi_agent_com.Base.{
  ℕ, String, ◌≡◌, ◌≢◌, refl, sym, ap, ◌∙◌, subst, ◌⊎◌, inl, inr, Option, none, some, List, [], ◌∷◌,
  arith, Map,
}
use multi_agent_com.Domain.Records.{AgentRun}
use multi_agent_com.Domain.Task.{Task, new_task}
use multi_agent_com.Domain.Audit.{born}
use multi_agent_com.Service.State.{
  Persisted, Service, World, Result-cases, persist, store_result, capture, restore,
}
use multi_agent_com.Service.Logs.{record_communication}
use multi_agent_com.Service.Start.{Backend, in_process, repository, Answers}
use multi_agent_com.Service.Runs.Safety.{IsSound}
use multi_agent_com.Service.Invariant.{Inv, put_idle}
use multi_agent_com.Service.Dispatch.{
  PlanAndContract, find_dispatched, DispatchIds, backend_task, frontend_task, integration_task,
  touch_project, dispatch_task, dispatched, commit, dispatch_new, dispatch_tasks, retry_of,
  prepare_retry, retry_task,
}
use multi_agent_com.Service.Dispatch.Again.{dispatch_cases}

-- A task ID that is not in use has no run.
pub unused_idle :
    (tasks : Map (Option Task)) (runs : Map (Option AgentRun)) (id : String)
    → Inv tasks runs
    → tasks id ≡ none
    → (k : String) (r : AgentRun) → runs k ≡ some r
    → r.task_id ≢ id
unused_idle tasks runs id inv unused k r e same =
    let (t, found, c) = inv.started k r e in absurd (cc (sym found ∙ ap tasks same ∙ unused))

pub commit_data :
    {A : Type 0} (b : Backend) (a : Answers) (change : Persisted → Persisted) (x : A) (s : Service)
    → ((commit b a change x s).0.data' ≡ change s.data')
      ⊎ ((commit b a change x s).0.data' ≡ s.data')
unfolding commit persist store_result capture restore
commit_data in_process a change x s = inl refl
commit_data repository a change x s = ground arith

pub commit-IsSound :
    {A : Type 0} (b : Backend) (a : Answers) (change : Persisted → Persisted) (x : A) (s : Service)
    → IsSound s
    → Inv (change s.data').tasks (change s.data').runs
    → IsSound (commit b a change x s).0
commit-IsSound b a change x s old new = elim (commit_data b a change x s) [
  | inl same ↦ subst (λ p. Inv p.tasks p.runs) (sym same) new
  | inr same ↦ subst (λ p. Inv p.tasks p.runs) (sym same) old
]

-- The IDs of a dispatch are not in use.
pub record Unused (ids : DispatchIds) (p : Persisted) : Type 0 where
  pub backend : p.tasks ids.backend ≡ none
  pub frontend : p.tasks ids.frontend ≡ none
  pub integration : p.tasks ids.integration ≡ none

module _ (w : World) (ids : DispatchIds) (project_id : String) (pc : PlanAndContract) (now : ℕ)
    (p : Persisted) where
  dispatched-Inv :
      Inv p.tasks p.runs
      → Unused ids p
      → let q = dispatched w ids project_id pc now (touch_project pc.project project_id now p) in
        Inv q.tasks q.runs
  unfolding dispatched dispatch_task record_communication backend_task frontend_task
      integration_task new_task
  dispatched-Inv inv u =
      put_idle
        (put_idle
          (put_idle inv (backend_task ids project_id pc now) (born "task created" now)
            (unused_idle p.tasks p.runs ids.backend inv u.backend))
          (frontend_task ids project_id pc now) (born "task created" now)
          (unused_idle p.tasks p.runs ids.frontend inv u.frontend))
        (integration_task ids project_id pc now) (born "task created" now)
        (unused_idle p.tasks p.runs ids.integration inv u.integration)

-- `DispatchTasks` keeps the state in order on every path, if the drawn IDs are not in use.
pub dispatch_tasks-IsSound :
    (b : Backend) (w : World) (a : Answers) (ids : DispatchIds) (project_id : String) (now : ℕ)
    (s : Service)
    → IsSound s
    → Unused ids s.data'
    → IsSound (dispatch_tasks b w a ids project_id now s).0
unfolding dispatch_new
dispatch_tasks-IsSound b w a ids project_id now s inv u =
    dispatch_cases b w a ids project_id now s (λ x. IsSound x.0) (λ e. inv)
      (λ pc there. found pc _ refl)
  where
    found :
        (pc : PlanAndContract) (l : List Task)
        → find_dispatched s.data'.tasks pc.plan.id pc.contract.id (s.data'.task_order project_id)
          ≡ l
        → IsSound (dispatch_new b w a ids project_id pc now s).0
    found pc (t ∷ ts) e = rw (e, dispatch_new) inv
    found pc [] e =
        rw (e, dispatch_new)
          (commit-IsSound b a _ _ s inv (dispatched-Inv w ids project_id pc now s.data' inv u))

-- `RetryTask` keeps the state in order on every path, if the drawn ID is not in use.
pub retry_task-IsSound :
    (b : Backend) (a : Answers) (id project_id task_id : String) (now : ℕ) (s : Service)
    → IsSound s
    → s.data'.tasks id ≡ none
    → IsSound (retry_task b a id project_id task_id now s).0
unfolding retry_task retry_of new_task
retry_task-IsSound b a id project_id task_id now s inv unused =
    elim (Result-cases (prepare_retry s.data' project_id task_id)) [
      | inr (e, r) ↦ rw (r, retry_task) inv
      | inl (x, r) ↦
          rw (r, retry_task)
            (commit-IsSound b a _ _ s inv (
              put_idle inv (retry_of id project_id x.task now) (born "task created" now)
                (unused_idle s.data'.tasks s.data'.runs id inv unused)))
    ]
