-- ===== src/Service/Tasks.antt =====
-- internal/service/service.go: how a handler finds its task, and when a task may run.
pub mod Ready
use multi_agent_com.Base.{
  String, ◌==◌, not, none, some, List, [], ◌∷◌, last?, is_empty, put, if◌then◌else◌,
}
use multi_agent_com.Domain.Task.{Task, is_created, is_done}
use multi_agent_com.Service.State.{
  Persisted, Result, ok, err, not_found_error, validation_error, conflict_error, crash, or_fail,
  guard, ◌>>=◌, ◌>>◌,
}

-- A write through the pointer to a task of `s.tasks`.
unfoldable pub store_task : Task → Persisted → Persisted
store_task t p = record p { tasks = put p.tasks t.id (some t) }

-- `resolveTaskLocked`. The last task of the order is dereferenced by the callers.
unfoldable pub resolve_task : Persisted → String → String → Result Task
resolve_task p project_id task_id =
    if not (is_empty task_id)
    then (do
      task ← or_fail (p.tasks task_id) (not_found_error "task not found")
      guard (task.project_id == project_id) (not_found_error "task not found")
      ok task)
    else do
      last ←
          or_fail (last? (p.task_order project_id))
            (validation_error "no task available for execution")
      or_fail (p.tasks last) crash

-- The loop over the dependencies in `ensureTaskReadyLocked`.
unfoldable pub dependencies_done : Persisted → List String → Result (Unit {0})
dependencies_done p [] = ok tt
dependencies_done p (d ∷ ds) =
    let rest = dependencies_done p ds in
    elim (p.tasks d) [
      | none ↦ err (conflict_error "task dependency is missing")
      | some dependency ↦
          if is_done dependency.status
          then rest
          else err (conflict_error "task dependencies are not completed")
    ]

-- `ensureTaskReadyLocked`
unfoldable pub ensure_task_ready : Persisted → Task → Result (Unit {0})
unfolding dependencies_done
ensure_task_ready p task = do
  guard (is_created task.status) (conflict_error "task is not ready to run")
  dependencies_done p task.depends_on
