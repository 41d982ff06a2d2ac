-- ===== src/Service/Start.antt =====
-- internal/service/service.go: the handler `StartRun`, over the in-process stores and over the
-- repository.
pub mod Steps
pub mod Replies
pub mod Backends
pub mod Stranded
use multi_agent_com.Base.{ℕ, String, Option, none, some, List, [], ◌∷◌}
use multi_agent_com.Domain.Task.{Task}
use multi_agent_com.Service.State.{
  Persisted, Service, World, Visits, Result, ok, err, Error, plain, not_found_error, Stored,
  persist, store_result, capture, restore, or_fail, ◌>>=◌, ◌>>◌,
}
use multi_agent_com.Service.Tasks.{resolve_task}
use multi_agent_com.Service.Budget.{ensure_token_budget}
use multi_agent_com.Service.Runs.{StartIds, RunEnvelope, start_task_run}

-- `runArtifactRepo == nil`, or not.
pub data Backend : Type 0 where
  in_process repository : Backend

-- What the calls out of a handler answer: the advisory lock, `SaveState`, and the repository;
-- and the order in which the maps are visited when the indexes are rebuilt.
pub record Answers : Type 0 where
  pub lock : Option String
  pub save : Option String
  pub repo : Stored
  pub visits : Visits

-- What a handler leaves: the state, its result, and the runs that it handed to `executeRun`.
pub record Reply (A : Type 0) : Type 0 where
  pub state : Service
  pub result : Result A
  pub launched : List String

-- An early return.
abbrev pub refuse : {A : Type 0} → Service → Error → Reply A
refuse s e = record { state = s; result = err e; launched = [] }

-- The checks of `StartRun` ahead of the start.
unfoldable pub prepare_run : World → Service → String → String → Result Task
prepare_run w s project_id task_id = do
  _ ← or_fail (s.data'.projects project_id) (not_found_error "project not found")
  task ← resolve_task s.data' project_id task_id
  ensure_token_budget w s project_id task
  ok task

-- After a start in process: the state is saved on both paths.
unfoldable pub saved_start : Answers → Service → Result RunEnvelope → Reply RunEnvelope
saved_start a s (err e) = elim (persist a.save) [ ok _ ↦ refuse s e | err e' ↦ refuse s e' ]
saved_start a s (ok envelope) = elim (persist a.save) [
  | ok _ ↦ record { state = s; result = ok envelope; launched = envelope.run.id ∷ [] }
  | err e ↦ refuse s e
]

-- After a start over the repository: a failed write brings the original state back.
unfoldable pub stored_start : Answers → Persisted → Service → Result RunEnvelope → Reply RunEnvelope
stored_start a original s (err e) = elim (persist a.save) [
  | ok _ ↦ refuse s e
  | err e' ↦ refuse s e'
]
stored_start a original s (ok envelope) = elim (store_result a.repo) [
  | err e ↦ refuse (restore a.visits original) e
  | ok _ ↦ record {
    state = restore a.visits (capture s);
    result = ok envelope;
    launched = envelope.run.id ∷ [];
  }
]

abbrev finish_start : Backend → Answers → Service → Service × Result RunEnvelope → Reply RunEnvelope
finish_start in_process a original (s, r) = saved_start a s r
finish_start repository a original (s, r) = stored_start a (capture original) s r

-- `StartRun`
unfoldable pub start_run :
    Backend → World → Answers → StartIds → String → String → ℕ → Service → Reply RunEnvelope
unfolding prepare_run saved_start stored_start capture restore
start_run b w a ids project_id task_id now s = elim a.lock [
  | some e ↦ refuse s (plain e)
  | none ↦ elim (prepare_run w s project_id task_id) [
    | err e ↦ refuse s e
    | ok task ↦
        finish_start b a s
          (start_task_run w ids project_id task now "single agent execution started" s)
  ]
]
