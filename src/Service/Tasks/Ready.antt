-- ===== src/Service/Tasks/Ready.antt =====
-- When `ensureTaskReadyLocked` lets a task run, and what `resolveTaskLocked` finds.
use multi_agent_com.Base.{
  String, ◌≡◌, refl, ◌⊎◌, inl, inr, Bool-cases, Option-cases, some, List, [], ◌∷◌, true, arith,
  last?, is_empty, All,
}
use multi_agent_com.Domain.Task.{Task, TaskStatus, created, done, is_done, is_created}
use multi_agent_com.Service.State.{Persisted, Result, ok, err, Error, Result-cases}
use multi_agent_com.Service.Tasks.{dependencies_done, ensure_task_ready, resolve_task}

abbrev pub IsDone : Persisted → String → Type 0
IsDone p d = (t : Task) × (p.tasks d ≡ some t) × (t.status ≡ done)

-- The task has not begun, and all that it depends on exists and is DONE.
pub record Ready (p : Persisted) (t : Task) : Type 0 where
  pub waiting : t.status ≡ created
  pub dependencies : All (IsDone p) t.depends_on

abbrev pub IsOk {ℓ} : {A : Type ℓ} → Result A → Type 0
IsOk (ok a) = Unit {0}
IsOk (err e) = ⊥

is_done-done : (s : TaskStatus) → is_done s ≡ true → s ≡ done
is_done-done done h = refl
is_done-done _ h = cc

done-is_done : (s : TaskStatus) → s ≡ done → is_done s ≡ true
done-is_done s h = rw h

dependencies_done_sound :
    (p : Persisted) (ds : List String) → IsOk (dependencies_done p ds) → All (IsDone p) ds
unfolding dependencies_done
dependencies_done_sound p [] h = tt
dependencies_done_sound p (d ∷ ds) h = elim (Option-cases (p.tasks d)) [
  | inl e ↦ absurd (rw (e, dependencies_done) at h)
  | inr (t, e) ↦ elim (Bool-cases (is_done t.status)) [
    | inl b ↦ (
      (t, e, is_done-done t.status b),
      dependencies_done_sound p ds (rw (e, b, dependencies_done) at h),
    )
    | inr b ↦ absurd (rw (e, b, dependencies_done) at h)
  ]
]

dependencies_done_complete :
    (p : Persisted) (ds : List String) → All (IsDone p) ds → dependencies_done p ds ≡ ok tt
unfolding dependencies_done
dependencies_done_complete p [] h = refl
dependencies_done_complete p (d ∷ ds) ((t, e, b), h) =
    rw (e, done-is_done t.status b, dependencies_done) (dependencies_done_complete p ds h)

is_created-created : (s : TaskStatus) → is_created s ≡ true → s ≡ created
is_created-created created h = refl
is_created-created _ h = cc

ensure_task_ready_sound : (p : Persisted) (t : Task) → IsOk (ensure_task_ready p t) → Ready p t
unfolding ensure_task_ready
ensure_task_ready_sound p t h = elim (Bool-cases (is_created t.status)) [
  | inl status ↦ record {
    waiting = is_created-created t.status status;
    dependencies = dependencies_done_sound p t.depends_on (rw (status, ensure_task_ready) at h);
  }
  | inr status ↦ absurd (rw (status, ensure_task_ready) at h)
]

ensure_task_ready_complete : (p : Persisted) (t : Task) → Ready p t → ensure_task_ready p t ≡ ok tt
unfolding ensure_task_ready
ensure_task_ready_complete p t r =
    rw (r.waiting, ensure_task_ready) (dependencies_done_complete p t.depends_on r.dependencies)

-- `ensureTaskReadyLocked` accepts exactly the tasks that are CREATED and whose dependencies all
-- exist and are DONE; any other task it refuses.
pub ensure_task_ready-Ready :
    (p : Persisted) (t : Task)
    → ((ensure_task_ready p t ≡ ok tt) × Ready p t)
      ⊎ ((¬ Ready p t) × ((e : Error) × (ensure_task_ready p t ≡ err e)))
ensure_task_ready-Ready p t = elim (Result-cases (ensure_task_ready p t)) [
  | inl (tt', e) ↦ inl (e, ensure_task_ready_sound p t (rw e tt))
  | inr (x, e) ↦ inr (λ r. cc (ensure_task_ready_complete p t r), (x, e))
]

-- A task that `resolveTaskLocked` finds stands in the task map.
pub resolve_task-stored :
    (p : Persisted) (project_id task_id : String) (t : Task)
    → resolve_task p project_id task_id ≡ ok t
    → (k : String) × (p.tasks k ≡ some t)
unfolding resolve_task
resolve_task-stored p project_id task_id t h = elim (Bool-cases (is_empty task_id)) [
  | inl blank ↦ elim (Option-cases (last? (p.task_order project_id))) [
    | inl e ↦ absurd (ground arith)
    | inr (k, e) ↦ (k, ground arith)
  ]
  | inr named ↦ (task_id, ground arith)
]
