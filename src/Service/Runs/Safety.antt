-- ===== src/Service/Runs/Safety.antt =====
-- internal/service/service.go: `startTaskRunLocked` and the invariant.
use multi_agent_com.Base.{ℕ, String, ◌≡◌, ◌≢◌, refl, sym, ap, ◌∙◌, inl, none, some, put_self}
use mathlib.Core.Option.{some-injective}
use multi_agent_com.Domain.Records.{AgentRun}
use multi_agent_com.Domain.Task.{Task, created, in_progress, failed}
use multi_agent_com.Domain.Audit.{start, fail, HasTrail, after_transition-HasTrail}
use multi_agent_com.Service.State.{Service, World, error_text}
use multi_agent_com.Service.Logs.{record_communication}
use multi_agent_com.Service.Tasks.{store_task}
use multi_agent_com.Service.Tasks.Ready.{Ready}
use multi_agent_com.Service.Runs.{StartIds, new_run, record_run, start_task_run}
use multi_agent_com.Service.Runs.Outcomes.{begun, aborted, no_workspace, start_task_run_cases}
use multi_agent_com.Service.Invariant.{Inv, put_idle, add_run}

abbrev pub IsSound : Service → Type 0
IsSound s = Inv s.data'.tasks s.data'.runs

-- No run has a task that is still CREATED.
pub created_idle :
    (s : Service) (k : String) (t : Task)
    → IsSound s
    → s.data'.tasks k ≡ some t
    → t.status ≡ created
    → (j : String) (r : AgentRun) → s.data'.runs j ≡ some r
    → r.task_id ≢ t.id
created_idle s k t inv found waiting j r e same =
    let (u, there, c) = inv.started j r e in
    let own : t.id ≡ k = (inv.keyed k t found).0 in
    let both : some u ≡ some t = sym there ∙ ap s.data'.tasks (same ∙ own) ∙ found in
    c.begun (ap (λ (x : Task). x.status) (some-injective _ _ both) ∙ waiting)

module _ (w : World) (ids : StartIds) (project_id : String) (task : Task) (now : ℕ)
    (reason : String) (s : Service) (k : String) (inv : IsSound s)
    (found : s.data'.tasks k ≡ some task)
    (fresh : Ready s.data' task → s.data'.runs ids.run ≡ none) where
  begun-HasTrail : Ready s.data' task → HasTrail (begun w ids project_id task now reason s)
  begun-HasTrail ready =
      after_transition-HasTrail task in_progress reason now (rw ready.waiting start)
        (inv.keyed k task found).1

  aborted-HasTrail : Ready s.data' task → HasTrail (aborted w ids project_id task now reason s)
  aborted-HasTrail ready =
      after_transition-HasTrail (begun w ids project_id task now reason s) failed
        (error_text no_workspace) now fail (begun-HasTrail ready)

  -- Whether it starts the run, refuses it or fails to make the sandbox.
  pub start_task_run-IsSound : IsSound (start_task_run w ids project_id task now reason s).0
  unfolding store_task record_run record_communication new_run
  start_task_run-IsSound =
      start_task_run_cases w ids project_id task now reason s (λ x. IsSound x.0) (λ e unready. inv)
        (λ ready.
          put_idle
            (put_idle inv (begun w ids project_id task now reason s) (begun-HasTrail ready)
              (idle ready))
            (aborted w ids project_id task now reason s) (aborted-HasTrail ready) (idle ready))
        (λ sandbox ready made.
          add_run
            (put_idle inv (begun w ids project_id task now reason s) (begun-HasTrail ready)
              (idle ready))
            ids.run _ (begun w ids project_id task now reason s) (fresh ready)
            (put_self s.data'.tasks task.id _) (record { begun = λ e. cc; busy = λ e. inl refl })
            (idle ready))
    where
      idle :
          Ready s.data' task
          → (j : String) (r : AgentRun) → s.data'.runs j ≡ some r
          → r.task_id ≢ task.id
      idle ready = created_idle s k task inv found ready.waiting
