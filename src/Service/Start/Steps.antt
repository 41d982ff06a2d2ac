-- ===== src/Service/Start/Steps.antt =====
-- The parts of `StartRun` after its checks: the start, and what the stores make of it.
use multi_agent_com.Base.{
  ℕ, String, ◌≡◌, refl, subst, ◌⊎◌, inl, inr, some, [], ◌∷◌, arith, put_self,
}
use multi_agent_com.Domain.Records.{RunStatus}
use multi_agent_com.Domain.Task.{Task, in_progress}
use multi_agent_com.Service.State.{
  Service, Persisted, World, Result, ok, err, Error, persist, store_result, capture, restore,
}
use multi_agent_com.Service.Logs.{record_communication}
use multi_agent_com.Service.Tasks.{store_task}
use multi_agent_com.Service.Tasks.Ready.{Ready}
use multi_agent_com.Service.Runs.{StartIds, RunEnvelope, new_run, record_run, start_task_run}
use multi_agent_com.Service.Runs.Outcomes.{begun, aborted, start_task_run_cases}
use multi_agent_com.Service.Start.{
  Backend, in_process, repository, Answers, finish_start, saved_start, stored_start,
}

-- After the start the persisted state is that of the start, or the original one.
pub finish_start_data :
    (b : Backend) (a : Answers) (s : Service) (x : Service × Result RunEnvelope)
    → ((finish_start b a s x).state.data' ≡ x.0.data')
      ⊎ ((finish_start b a s x).state.data' ≡ s.data')
unfolding saved_start stored_start persist store_result capture restore
finish_start_data in_process a s (s', ok e) = inl (ground arith)
finish_start_data in_process a s (s', err e) = inl (ground arith)
finish_start_data repository a s (s', err e) = inl (ground arith)
finish_start_data repository a s (s', ok e) = ground arith

pub finish_start_ok :
    (b : Backend) (a : Answers) (s : Service) (x : Service × Result RunEnvelope) (e : RunEnvelope)
    → (finish_start b a s x).result ≡ ok e
    → (x.1 ≡ ok e)
      × ((finish_start b a s x).state.data' ≡ x.0.data')
      × ((finish_start b a s x).launched ≡ e.run.id ∷ [])
unfolding saved_start stored_start persist store_result capture restore
finish_start_ok in_process a s (s', ok e') e h = ground arith
finish_start_ok in_process a s (s', err e') e h = ground arith
finish_start_ok repository a s (s', err e') e h = ground arith
finish_start_ok repository a s (s', ok e') e h = ground arith

pub finish_start_err :
    (b : Backend) (a : Answers) (s : Service) (x : Service × Result RunEnvelope) (e : Error)
    → (finish_start b a s x).result ≡ err e
    → (finish_start b a s x).launched ≡ []
unfolding saved_start stored_start persist store_result capture restore
finish_start_err in_process a s (s', ok e') e h = ground arith
finish_start_err in_process a s (s', err e') e h = ground arith
finish_start_err repository a s (s', err e') e h = ground arith
finish_start_err repository a s (s', ok e') e h = ground arith

-- Over the repository an error leaves the original state, or the error is that of the start.
pub finish_start_undone :
    (b : Backend) (a : Answers) (s : Service) (x : Service × Result RunEnvelope) (e : Error)
    → b ≡ repository
    → (finish_start b a s x).result ≡ err e
    → ((finish_start b a s x).state.data' ≡ s.data')
      ⊎ (((e' : Error) × (x.1 ≡ err e')) × ((finish_start b a s x).state.data' ≡ x.0.data'))
unfolding saved_start stored_start persist store_result capture restore
finish_start_undone in_process a s x e r h = absurd (cc r)
finish_start_undone repository a s (s', err e') e r h = inr ((e', refl), ground arith)
finish_start_undone repository a s (s', ok e') e r h = inl (ground arith)

abbrev pub start_reason : String
start_reason = "single agent execution started"

-- What a start that succeeds has done.
pub record Begun (p : Persisted) (t : Task) (x : Service × Result RunEnvelope) (e : RunEnvelope)
    : Type 0 where
  pub ready : Ready p t
  pub stored_run : x.0.data'.runs e.run.id ≡ some e.run
  pub stored_task : x.0.data'.tasks t.id ≡ some e.task
  pub running : e.run.status ≡ RunStatus.running
  pub same_task : e.run.task_id ≡ t.id
  pub in_work : e.task.status ≡ in_progress

pub start_task_run-Begun :
    (w : World) (ids : StartIds) (project_id : String) (t : Task) (now : ℕ) (reason : String)
    (s : Service) (e : RunEnvelope)
    → (start_task_run w ids project_id t now reason s).1 ≡ ok e
    → Begun s.data' t (start_task_run w ids project_id t now reason s) e
unfolding record_run store_task record_communication new_run
start_task_run-Begun w ids project_id t now reason s =
    start_task_run_cases w ids project_id t now reason s
      (λ x. (e : RunEnvelope) → x.1 ≡ ok e → Begun s.data' t x e) (λ x unready e h. absurd (cc h))
      (λ ready e h. absurd (cc h))
      λ sandbox ready made e h. subst (Begun s.data' t _) (envelope_of e h) (record {
        ready = ready;
        stored_run = put_self s.data'.runs ids.run _;
        stored_task = put_self s.data'.tasks t.id _;
        running = refl;
        same_task = refl;
        in_work = refl;
      })
  where
    envelope_of : {d : RunEnvelope} (e : RunEnvelope) → ok d ≡ ok e → d ≡ e
    envelope_of e h = cc

-- The persisted state after a start that came to nothing: the original one, or that in which the
-- task has gone from CREATED over IN_PROGRESS to FAILED.
abbrev pub Undone : World → StartIds → String → ℕ → Service → Persisted → Type 0
Undone w ids project_id now s d =
    (d ≡ s.data')
    ⊎ ((t : Task) × Ready s.data' t
        × (d
            ≡ store_task (aborted w ids project_id t now start_reason s)
                (store_task (begun w ids project_id t now start_reason s) s.data')))

pub start_task_run-Undone :
    (w : World) (ids : StartIds) (project_id : String) (t : Task) (now : ℕ) (s : Service)
    (e : Error)
    → (e' : Error) × ((start_task_run w ids project_id t now start_reason s).1 ≡ err e')
    → Undone w ids project_id now s (start_task_run w ids project_id t now start_reason s).0.data'
start_task_run-Undone w ids project_id t now s e =
    start_task_run_cases w ids project_id t now start_reason s
      (λ x. (e' : Error) × (x.1 ≡ err e') → Undone w ids project_id now s x.0.data')
      (λ x unready lost. inl refl) (λ ready lost. inr (t, ready, refl))
      λ sandbox ready made lost. absurd (cc lost.1)
