-- ===== src/Service/Start/Stranded.antt =====
-- internal/service/service.go: `StartRun` in process, where `SaveState` fails after the start.
use multi_agent_com.Base.{
  ℕ, String, ◌≡◌, sym, ap, ◌∙◌, inl, inr, none, some, [], Option-cases, arith,
}
use mathlib.Core.Option.{some-injective}
use multi_agent_com.Domain.Records.{RunStatus}
use multi_agent_com.Domain.Task.{Task, in_progress}
use multi_agent_com.Service.State.{
  Service, Persisted, World, Result, ok, err, internal_error, Result-cases, persist,
}
use multi_agent_com.Service.Runs.{StartIds, RunEnvelope, start_task_run}
use multi_agent_com.Service.Runs.Safety.{IsSound}
use multi_agent_com.Service.Start.{
  Backend, in_process, Answers, Reply, prepare_run, finish_start, saved_start, start_run,
}
use multi_agent_com.Service.Start.Steps.{start_reason, start_task_run-Begun, finish_start_ok}
use multi_agent_com.Service.Start.Replies.{start_run-Launched, start_run-IsSound}

finish_start_lost :
    (a : Answers) (s : Service) (x : Service × Result RunEnvelope) (e : RunEnvelope)
    (message : String)
    → x.1 ≡ ok e
    → a.save ≡ some message
    → let r = finish_start in_process a s x in
      (r.result ≡ err (internal_error "PERSISTENCE_FAILED" message))
      × (r.launched ≡ [])
      × (r.state.data' ≡ x.0.data')
unfolding saved_start persist
finish_start_lost a s (s', ok e') e message h k = ground arith
finish_start_lost a s (s', err e') e message h k = absurd (cc h)

-- The answers of stores whose `SaveState` accepts.
abbrev pub saving : Answers → Answers
saving a = record a { save = none }

-- What a start that cannot be saved leaves.
pub record LeftRunning (r : Reply RunEnvelope) (e : RunEnvelope) (message : String) : Type 0 where
  pub refused : r.result ≡ err (internal_error "PERSISTENCE_FAILED" message)
  pub not_launched : r.launched ≡ []
  pub stored_run : r.state.data'.runs e.run.id ≡ some e.run
  pub running : e.run.status ≡ RunStatus.running
  pub stored_task : r.state.data'.tasks e.run.task_id ≡ some e.task
  pub in_work : e.task.status ≡ in_progress

module _ (w : World) (a : Answers) (ids : StartIds) (project_id task_id : String) (now : ℕ)
    (s : Service) (e : RunEnvelope) (message : String) where
  finish_start-LeftRunning :
      (t : Task)
      → (start_task_run w ids project_id t now start_reason s).1 ≡ ok e
      → a.save ≡ some message
      → LeftRunning
          (finish_start in_process a s (start_task_run w ids project_id t now start_reason s))
          e
          message
  finish_start-LeftRunning t won lost =
      let x = start_task_run w ids project_id t now start_reason s in
      let begun = start_task_run-Begun w ids project_id t now start_reason s e won in
      let (p, q, left) = finish_start_lost a s x e message won lost in
      record {
        refused = p;
        not_launched = q;
        stored_run = ap (λ (d : Persisted). d.runs e.run.id) left ∙ begun.stored_run;
        running = begun.running;
        stored_task =
            ap (λ (d : Persisted). d.tasks e.run.task_id) left
            ∙ ap x.0.data'.tasks begun.same_task
            ∙ begun.stored_task;
        in_work = begun.in_work;
      }

  start_run-LeftRunning :
      a.save ≡ some message
      → (start_run in_process w (saving a) ids project_id task_id now s).result ≡ ok e
      → LeftRunning (start_run in_process w a ids project_id task_id now s) e message
  unfolding start_run
  start_run-LeftRunning lost would = elim (Option-cases a.lock) [
    | inr (m, locked) ↦ absurd (cc (rw (start_run, locked) at would))
    | inl free ↦ elim (Result-cases (prepare_run w s project_id task_id)) [
      | inr (m, refused) ↦ absurd (cc (rw (start_run, free, refused) at would))
      | inl (t, prepared) ↦
          let x = start_task_run w ids project_id t now start_reason s in
          let won =
            (finish_start_ok in_process (saving a) s x e
              (rw (start_run, free, prepared) at would)).0 in
          rw (start_run, free, prepared) (finish_start-LeftRunning t won lost)
    ]
  ]

-- In process, where `StartRun` would succeed if `SaveState` accepted, but `SaveState` fails: it
-- reports the failure and launches nothing, yet the state has the run RUNNING and its task
-- IN_PROGRESS; and then no `StartRun`, whatever it is asked and over either backend, starts a run of
-- that task. The state is one in order, and the ID of the run is not taken.
pub start_run_stranded :
    (w : World) (a : Answers) (ids : StartIds) (project_id task_id : String) (now : ℕ) (s : Service)
    (e : RunEnvelope) (message : String) (b : Backend) (w' : World) (a' : Answers) (ids' : StartIds)
    (project_id' task_id' : String) (later : ℕ)
    → IsSound s
    → s.data'.runs ids.run ≡ none
    → a.save ≡ some message
    → (start_run in_process w (saving a) ids project_id task_id now s).result ≡ ok e
    → let r = start_run in_process w a ids project_id task_id now s in
      let next = start_run b w' a' ids' project_id' task_id' later r.state in
      LeftRunning r e message
      × ¬ ((e' : RunEnvelope) × ((next.result ≡ ok e') × (e'.run.task_id ≡ e.run.task_id)))
start_run_stranded w a ids project_id task_id now s e message b w' a' ids' project_id' task_id'
      later inv fresh lost would =
    let r = start_run in_process w a ids project_id task_id now s in
    let stranded = start_run-LeftRunning w a ids project_id task_id now s e message lost would in
    let after = start_run-IsSound in_process w a ids project_id task_id now s inv fresh in
    (
      stranded,
      λ again.
          let (e', (started, same)) = again in
          let l = start_run-Launched b w' a' ids' project_id' task_id' later r.state e' started in
          let key = (after.keyed l.prepared.key l.task l.prepared.found).0 in
          let named = sym same ∙ l.same_task ∙ key in
          let found = sym stranded.stored_task ∙ ap r.state.data'.tasks named ∙ l.prepared.found in
          let one = some-injective e.task l.task found in
          cc (sym stranded.in_work ∙ ap (λ (t : Task). t.status) one ∙ l.ready.waiting),
    )
