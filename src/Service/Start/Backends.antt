-- ===== src/Service/Start/Backends.antt =====
-- internal/service/service.go: `StartRun` over the in-process stores and over the repository.
use multi_agent_com.Base.{ℕ, String, ◌≡◌, refl, inl, inr, none, Option-cases, arith}
use multi_agent_com.Service.State.{
  Service, World, Result, ok, err, Result-cases, stored, persist, store_result, capture, restore,
}
use multi_agent_com.Service.Runs.{StartIds, RunEnvelope}
use multi_agent_com.Service.Start.{
  in_process, repository, Answers, Reply, prepare_run, finish_start, saved_start, stored_start,
  start_run,
}

-- Two replies that a client cannot tell apart, and that leave the same persisted state.
pub record Alike {A : Type 0} (x y : Reply A) : Type 0 where
  pub results : x.result ≡ y.result
  pub launches : x.launched ≡ y.launched
  pub states : x.state.data' ≡ y.state.data'

finish_start-Alike :
    (a : Answers) (s : Service) (x : Service × Result RunEnvelope)
    → a.save ≡ none
    → a.repo ≡ stored
    → Alike (finish_start in_process a s x) (finish_start repository a s x)
unfolding saved_start stored_start persist store_result capture restore
finish_start-Alike a s (s', ok e) h k = ground arith
finish_start-Alike a s (s', err e) h k = ground arith

module _ (w : World) (a : Answers) (ids : StartIds) (project_id task_id : String) (now : ℕ)
    (s : Service) where
  -- Where `SaveState` and the repository accept the write, `StartRun` in process and `StartRun` over
  -- the repository give the same answer, launch the same run and leave the same persisted state.
  pub start_run-backends :
      a.save ≡ none
      → a.repo ≡ stored
      → Alike
          (start_run in_process w a ids project_id task_id now s)
          (start_run repository w a ids project_id task_id now s)
  unfolding start_run
  start_run-backends h k = elim (Option-cases a.lock) [
    | inr (e, locked) ↦
        rw (locked, start_run) (record { results = refl; launches = refl; states = refl })
    | inl free ↦ elim (Result-cases (prepare_run w s project_id task_id)) [
      | inr (e, r) ↦
          rw (free, r, start_run) (record { results = refl; launches = refl; states = refl })
      | inl (t, r) ↦ rw (free, r, start_run) (finish_start-Alike a s _ h k)
    ]
  ]
