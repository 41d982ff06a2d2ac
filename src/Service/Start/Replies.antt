-- ===== src/Service/Start/Replies.antt =====
-- internal/service/service.go: the replies of `StartRun` and the states that it leaves.
use multi_agent_com.Base.{
  ℕ, String, ◌≡◌, refl, sym, ap, subst, ◌∙◌, inl, inr, none, some, [], ◌∷◌, Option-cases, arith,
}
use multi_agent_com.Domain.Records.{RunStatus}
use multi_agent_com.Domain.Task.{Task, in_progress}
use multi_agent_com.Service.State.{
  Service, Persisted, World, Result, ok, err, Error, Result-cases, plain,
}
use multi_agent_com.Service.Tasks.{resolve_task}
use multi_agent_com.Service.Tasks.Ready.{Ready, resolve_task-stored}
use multi_agent_com.Service.Budget.{ensure_token_budget}
use multi_agent_com.Service.Runs.{StartIds, RunEnvelope, start_task_run}
use multi_agent_com.Service.Runs.Safety.{IsSound, start_task_run-IsSound}
use multi_agent_com.Service.Invariant.{Inv}
use multi_agent_com.Service.Start.{
  Backend, repository, Answers, Reply, refuse, prepare_run, finish_start, start_run,
}
use multi_agent_com.Service.Start.Steps.{
  finish_start_data, finish_start_ok, finish_start_err, finish_start_undone, start_task_run-Begun,
  Undone, start_task_run-Undone,
}

-- What the checks of `StartRun` have found where they pass.
pub record Prepared (w : World) (s : Service) (project_id task_id : String) (t : Task)
    : Type 0 where
  pub resolved : resolve_task s.data' project_id task_id ≡ ok t
  pub key : String
  pub found : s.data'.tasks key ≡ some t
  pub budget : ensure_token_budget w s project_id t ≡ ok tt

pub prepare_run-Prepared :
    (w : World) (s : Service) (project_id task_id : String) (t : Task)
    → prepare_run w s project_id task_id ≡ ok t
    → Prepared w s project_id task_id t
unfolding prepare_run
prepare_run-Prepared w s project_id task_id t h =
    elim (Option-cases (s.data'.projects project_id)) [
      | inl e ↦ absurd (ground arith)
      | inr (p, e) ↦ elim (Result-cases (resolve_task s.data' project_id task_id)) [
        | inr (x, e') ↦ absurd (ground arith)
        | inl (u, e') ↦ elim (Result-cases (ensure_token_budget w s project_id u)) [
          | inr (x, e'') ↦ absurd (ground arith)
          | inl (y, e'') ↦
              let same : u ≡ t = ground arith in
              let (k, there) = resolve_task-stored s.data' project_id task_id u e' in
              record {
                resolved = e' ∙ ap ok same;
                key = k;
                found = there ∙ ap some same;
                budget = ap (ensure_token_budget w s project_id) (sym same) ∙ e'';
              }
        ]
      ]
    ]

-- What a success of `StartRun` means.
pub record Launched (w : World) (s : Service) (project_id task_id : String) (r : Reply RunEnvelope)
    (e : RunEnvelope) : Type 0 where
  pub task : Task
  pub prepared : Prepared w s project_id task_id task
  pub ready : Ready s.data' task
  pub launched : r.launched ≡ e.run.id ∷ []
  pub stored_run : r.state.data'.runs e.run.id ≡ some e.run
  pub stored_task : r.state.data'.tasks task.id ≡ some e.task
  pub running : e.run.status ≡ RunStatus.running
  pub same_task : e.run.task_id ≡ task.id
  pub in_work : e.task.status ≡ in_progress

module _ (b : Backend) (w : World) (a : Answers) (ids : StartIds) (project_id task_id : String)
    (now : ℕ) (s : Service) where
  abbrev pub reply : Reply RunEnvelope
  reply = start_run b w a ids project_id task_id now s

  abbrev pub started : Task → Service × Result RunEnvelope
  started t = start_task_run w ids project_id t now "single agent execution started" s

  -- The handler refuses ahead of the start, or goes on to it.
  pub start_run_cases {ℓ} :
      (P : Reply RunEnvelope → Type ℓ)
      → ((e : Error) → P (refuse s e))
      → ((t : Task) → Prepared w s project_id task_id t → P (finish_start b a s (started t)))
      → P reply
  unfolding start_run
  start_run_cases P early late = elim (Option-cases a.lock) [
    | inr (e, locked) ↦ rw (locked, start_run) (early (plain e))
    | inl free ↦ elim (Result-cases (prepare_run w s project_id task_id)) [
      | inr (e, r) ↦ rw (free, r, start_run) (early e)
      | inl (t, r) ↦
          rw (free, r, start_run) (late t (prepare_run-Prepared w s project_id task_id t r))
    ]
  ]

  -- Whatever the checks, the stores and the workspace provider answer, and over either backend, the
  -- state that `StartRun` leaves is in order, if the ID of the new run is not taken.
  pub start_run-IsSound : IsSound s → s.data'.runs ids.run ≡ none → IsSound reply.state
  start_run-IsSound inv fresh =
      start_run_cases (λ r. IsSound r.state) (λ e. inv)
        λ t prep. elim (finish_start_data b a s (started t)) [
          | inl same ↦
              subst (λ p. Inv p.tasks p.runs) (sym same)
                (start_task_run-IsSound w ids project_id t now "single agent execution started" s
                  prep.key inv prep.found (λ _. fresh))
          | inr same ↦ subst (λ p. Inv p.tasks p.runs) (sym same) inv
        ]

  -- When `StartRun` succeeds the requested task was ready and within the budget; the run is stored RUNNING
  -- and the task IN_PROGRESS, and exactly this run is handed to the executor.
  pub start_run-Launched :
      (e : RunEnvelope) → reply.result ≡ ok e → Launched w s project_id task_id reply e
  start_run-Launched =
      start_run_cases
        (λ r. (e : RunEnvelope) → r.result ≡ ok e → Launched w s project_id task_id r e)
        (λ x e h. absurd (cc h))
        λ t prep e h.
          let (won, same, ran) = finish_start_ok b a s (started t) e h in
          let begun' =
            start_task_run-Begun w ids project_id t now "single agent execution started" s e won in
          record {
            task = t;
            prepared = prep;
            ready = begun'.ready;
            launched = ran;
            stored_run = ap (λ (p : Persisted). p.runs e.run.id) same ∙ begun'.stored_run;
            stored_task = ap (λ (p : Persisted). p.tasks t.id) same ∙ begun'.stored_task;
            running = begun'.running;
            same_task = begun'.same_task;
            in_work = begun'.in_work;
          }

  -- When `StartRun` fails no run is handed to the executor. Over the repository the persisted state
  -- is then the original one, unless the workspace could not be made: that task is then FAILED.
  pub start_run_error :
      (e : Error)
      → reply.result ≡ err e
      → (reply.launched ≡ []) × (b ≡ repository → Undone w ids project_id now s reply.state.data')
  start_run_error =
      start_run_cases
        (λ r.
          (e : Error)
          → r.result ≡ err e
          → (r.launched ≡ []) × (b ≡ repository → Undone w ids project_id now s r.state.data'))
        (λ x e h. (refl, λ _. inl refl))
        λ t prep e h. (
          finish_start_err b a s (started t) e h,
          λ r. elim (finish_start_undone b a s (started t) e r h) [
            | inl same ↦ inl same
            | inr (lost, same) ↦
                subst (Undone w ids project_id now s) (sym same)
                  (start_task_run-Undone w ids project_id t now s e lost)
          ],
        )
