-- ===== src/Service/Dispatch/Again.antt =====
-- internal/service/service.go: a second `DispatchTasks` for the same plan and contract.
use multi_agent_com.Base.{
  Map, ℕ, String, ◌==◌, ◌≡◌, ◌≢◌, refl, sym, ap, ◌∙◌, inl, inr, Option-cases, Option, none, some,
  List, [], ◌∷◌, ◌++◌, snoc, All, All-snoc, ◌&&◌, put, put_self, put_other, true, eq_refl, arith,
}
use multi_agent_com.Domain.Task.{Task}
use multi_agent_com.Service.State.{
  Persisted, Service, World, Result, ok, err, Error, plain, Result-cases, persist, store_result,
  capture, restore,
}
use multi_agent_com.Service.Logs.{record_communication}
use multi_agent_com.Service.Start.{Backend, in_process, repository, Answers}
use multi_agent_com.Service.Dispatch.{
  PlanAndContract, latest_plan_and_contract, is_dispatch_type, is_dispatched, find_dispatched,
  DispatchIds, backend_task, contract_ref, frontend_task, integration_task, touch_project,
  dispatch_task, dispatched, new_tasks, DispatchTasksResult, commit, dispatch_new, dispatch_tasks,
}

module _ (plan_id contract_id : String) where
  find_dispatched-append :
      (tasks : Map (Option Task)) (xs ys : List String)
      → find_dispatched tasks plan_id contract_id (xs ++ ys)
        ≡ find_dispatched tasks plan_id contract_id xs
          ++ find_dispatched tasks plan_id contract_id ys
  unfolding find_dispatched
  find_dispatched-append tasks [] ys = refl
  find_dispatched-append tasks (x ∷ xs) ys = ground (arith, find_dispatched-append tasks xs ys)

  -- A task under an ID that is not in the list makes no difference.
  find_dispatched-put :
      (tasks : Map (Option Task)) (t : Task) (xs : List String)
      → All (λ x. t.id ≢ x) xs
      → find_dispatched (put tasks t.id (some t)) plan_id contract_id xs
        ≡ find_dispatched tasks plan_id contract_id xs
  unfolding find_dispatched
  find_dispatched-put tasks t [] h = refl
  find_dispatched-put tasks t (x ∷ xs) (other, h) =
      ground (arith, put_other tasks t.id x (some t) other, find_dispatched-put tasks t xs h)

  -- A dispatched task at the end of the order is found after the others.
  find_dispatched-snoc :
      (tasks : Map (Option Task)) (t : Task) (xs : List String)
      → All (λ x. t.id ≢ x) xs
      → is_dispatched plan_id contract_id t ≡ true
      → find_dispatched (put tasks t.id (some t)) plan_id contract_id (snoc xs t.id)
        ≡ snoc (find_dispatched tasks plan_id contract_id xs) t
  unfolding find_dispatched
  find_dispatched-snoc tasks t xs h d =
      find_dispatched-append (put tasks t.id (some t)) xs (t.id ∷ [])
      ∙ ground (arith, put_self tasks t.id (some t), find_dispatched-put tasks t xs h)

-- The drawn IDs are three different ones that the project does not use.
pub record Fresh (ids : DispatchIds) (order : List String) : Type 0 where
  pub backend : All (λ x. ids.backend ≢ x) order
  pub frontend : All (λ x. ids.frontend ≢ x) order
  pub integration : All (λ x. ids.integration ≢ x) order
  pub backend_frontend : ids.frontend ≢ ids.backend
  pub backend_integration : ids.integration ≢ ids.backend
  pub frontend_integration : ids.integration ≢ ids.frontend

module _ (w : World) (ids : DispatchIds) (project_id : String) (pc : PlanAndContract) (now : ℕ)
    (p : Persisted) where
  abbrev after : Persisted
  after = dispatched w ids project_id pc now (touch_project pc.project project_id now p)

  abbrev all_tasks : List Task
  all_tasks =
      backend_task ids project_id pc now
      ∷ frontend_task ids project_id pc now
      ∷ integration_task ids project_id pc now
      ∷ []

  dispatched-tasks :
      after.tasks
      ≡ put
          (put
            (put p.tasks ids.backend (some (backend_task ids project_id pc now)))
            ids.frontend
            (some (frontend_task ids project_id pc now)))
          ids.integration
          (some (integration_task ids project_id pc now))
  unfolding dispatched dispatch_task record_communication backend_task frontend_task
      integration_task
  dispatched-tasks = refl

  dispatched-order :
      after.task_order project_id
      ≡ snoc (snoc (snoc (p.task_order project_id) ids.backend) ids.frontend) ids.integration
  unfolding dispatched dispatch_task record_communication backend_task frontend_task
      integration_task
  dispatched-order = simp (eq_refl project_id)

  -- The tasks of a dispatch are found by the next one.
  find_dispatched-dispatched :
      Fresh ids (p.task_order project_id)
      → find_dispatched p.tasks pc.plan.id pc.contract.id (p.task_order project_id) ≡ []
      → find_dispatched after.tasks pc.plan.id pc.contract.id (after.task_order project_id)
        ≡ all_tasks
  unfolding backend_task frontend_task integration_task is_dispatch_type
  find_dispatched-dispatched f old =
      let xs = p.task_order project_id in
      let b = backend_task ids project_id pc now in
      let g = frontend_task ids project_id pc now in
      let i = integration_task ids project_id pc now in
      let matches : (k : String)
          → ((pc.plan.id == pc.plan.id)
                && (contract_ref pc.contract.id == contract_ref pc.contract.id))
              && true
            ≡ true =
        λ k. rw (eq_refl pc.plan.id, eq_refl (contract_ref pc.contract.id)) in
      let one =
        find_dispatched-snoc pc.plan.id pc.contract.id p.tasks b xs f.backend (matches "") in
      let two =
        find_dispatched-snoc pc.plan.id pc.contract.id (put p.tasks b.id (some b)) g (snoc xs b.id)
          (All-snoc (λ x. ids.frontend ≢ x) xs b.id f.frontend f.backend_frontend) (matches "") in
      let three =
        find_dispatched-snoc pc.plan.id pc.contract.id
          (put (put p.tasks b.id (some b)) g.id (some g)) i (snoc (snoc xs b.id) g.id)
          (All-snoc (λ x. ids.integration ≢ x) (snoc xs b.id) g.id
            (All-snoc (λ x. ids.integration ≢ x) xs b.id f.integration f.backend_integration)
            f.frontend_integration)
          (matches "") in
      rw (dispatched-tasks, dispatched-order)
        (three ∙ ap (λ l. snoc l i) (two ∙ ap (λ l. snoc l g) (one ∙ ap (λ l. snoc l b) old)))

  latest_plan_and_contract-after :
      latest_plan_and_contract p project_id ≡ ok pc
      → latest_plan_and_contract after project_id
        ≡ ok (record pc { project = record pc.project { updated_at = now } })
  unfolding latest_plan_and_contract dispatched dispatch_task record_communication
  latest_plan_and_contract-after h = ground (arith, eq_refl project_id)

-- A successful commit has made the change.
pub commit_ok :
    {A : Type 0} (b : Backend) (a : Answers) (change : Persisted → Persisted) (x : A) (s : Service)
    (r : A)
    → (commit b a change x s).1 ≡ ok r
    → (r ≡ x) × ((commit b a change x s).0.data' ≡ change s.data')
unfolding commit persist store_result capture restore
commit_ok in_process a change x s r h = ground arith
commit_ok repository a change x s r h = ground arith

module _ (b : Backend) (w : World) (a : Answers) (ids : DispatchIds) (project_id : String) (now : ℕ)
    (s : Service) (free : a.lock ≡ none) where
  -- Where the tasks are there the dispatch returns them, and changes nothing.
  dispatch_found :
      (pc : PlanAndContract) (t : Task) (ts : List Task)
      → latest_plan_and_contract s.data' project_id ≡ ok pc
      → find_dispatched s.data'.tasks pc.plan.id pc.contract.id (s.data'.task_order project_id)
        ≡ t ∷ ts
      → dispatch_tasks b w a ids project_id now s
        ≡ (s, ok (record { contract = pc.contract; tasks = t ∷ ts }))
  unfolding dispatch_tasks dispatch_new
  dispatch_found pc t ts there found = rw (free, there, dispatch_tasks) (rw (found, dispatch_new))

-- A dispatch is refused ahead of the look for its tasks, or goes on to it.
pub dispatch_cases {ℓ} :
    (b : Backend) (w : World) (a : Answers) (ids : DispatchIds) (project_id : String) (now : ℕ)
    (s : Service) (P : Service × Result DispatchTasksResult → Type ℓ)
    → ((e : Error) → P (s, err e))
    → ((pc : PlanAndContract)
        → latest_plan_and_contract s.data' project_id ≡ ok pc
        → P (dispatch_new b w a ids project_id pc now s))
    → P (dispatch_tasks b w a ids project_id now s)
unfolding dispatch_tasks
dispatch_cases b w a ids project_id now s P early late = elim (Option-cases a.lock) [
  | inr (e, locked) ↦ rw (locked, dispatch_tasks) (early (plain e))
  | inl free ↦ elim (Result-cases (latest_plan_and_contract s.data' project_id)) [
    | inr (e, there) ↦ rw (free, there, dispatch_tasks) (early e)
    | inl (pc, there) ↦ rw (free, there, dispatch_tasks) (late pc there)
  ]
]

module _ (b : Backend) (w : World) (a a' : Answers) (ids ids' : DispatchIds) (project_id : String)
    (now later : ℕ) (s : Service) (r : DispatchTasksResult)
    (f : Fresh ids (s.data'.task_order project_id)) (free : a'.lock ≡ none) where
  abbrev Repeats : Service × Result DispatchTasksResult → Type 0
  Repeats x = x.1 ≡ ok r → dispatch_tasks b w a' ids' project_id later x.0 ≡ (x.0, ok r)

  dispatch_new-Repeats :
      (pc : PlanAndContract)
      → latest_plan_and_contract s.data' project_id ≡ ok pc
      → (l : List Task)
      → find_dispatched s.data'.tasks pc.plan.id pc.contract.id (s.data'.task_order project_id) ≡ l
      → Repeats (dispatch_new b w a ids project_id pc now s)
  unfolding dispatch_new
  dispatch_new-Repeats pc there (t ∷ ts) found =
      rw (found, dispatch_new)
        (λ h.
          dispatch_found b w a' ids' project_id later s free pc t ts there found
          ∙ ap (λ x. (s, x)) h)
  dispatch_new-Repeats pc there [] found =
      rw (found, dispatch_new)
        (λ h.
          let change : Persisted → Persisted =
            λ p. dispatched w ids project_id pc now (touch_project pc.project project_id now p) in
          let (result, changed) = commit_ok b a change (new_tasks ids project_id pc now) s r h in
          dispatch_found b w a' ids' project_id later
            (commit b a change (new_tasks ids project_id pc now) s).0 free
            (record pc { project = record pc.project { updated_at = now } }) _ _
            (rw changed (latest_plan_and_contract-after w ids project_id pc now s.data' there))
            (rw changed (find_dispatched-dispatched w ids project_id pc now s.data' f found))
          ∙ ap (λ y. ((commit b a change (new_tasks ids project_id pc now) s).0, ok y))
              (sym result))

  -- Dispatching is idempotent: once a dispatch has succeeded with new IDs, the next dispatch of the
  -- project, if it gets the lock, returns the same contract and tasks, and changes nothing.
  pub dispatch_twice :
      (dispatch_tasks b w a ids project_id now s).1 ≡ ok r
      → dispatch_tasks b w a' ids' project_id later (dispatch_tasks b w a ids project_id now s).0
        ≡ ((dispatch_tasks b w a ids project_id now s).0, ok r)
  dispatch_twice =
      dispatch_cases b w a ids project_id now s Repeats (λ e h. absurd (cc h))
        (λ pc there. dispatch_new-Repeats pc there _ refl)
