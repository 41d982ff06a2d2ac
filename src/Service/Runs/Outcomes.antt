-- ===== src/Service/Runs/Outcomes.antt =====
-- The three ways in which `startTaskRunLocked` ends.
use multi_agent_com.Base.{ℕ, String, ◌≡◌, inl, inr, some, Option-cases, put}
use multi_agent_com.Domain.Records.{Sandbox}
use multi_agent_com.Domain.Task.{Task, in_progress, failed, transition_to, moved}
use multi_agent_com.Domain.Audit.{
  after_transition, try_transition_ok, transition_to_ok, start, fail, Edge-allowed,
}
use multi_agent_com.Service.State.{
  Service, World, Result, ok, err, Error, internal_error, error_text, push,
}
use multi_agent_com.Service.Tasks.{store_task}
use multi_agent_com.Service.Tasks.Ready.{Ready, ensure_task_ready-Ready}
use multi_agent_com.Service.Runs.{
  StartIds, RunEnvelope, run_agent, private_sandbox, create_private_sandbox, new_run, record_run,
  start_moved, start_task_run,
}

-- The error of a workspace that could not be made.
abbrev pub no_workspace : Error
no_workspace = internal_error "SANDBOX_CREATE_FAILED" "sandbox workspace could not be created"

module _ (w : World) (ids : StartIds) (project_id : String) (task : Task) (now : ℕ)
    (reason : String) (s : Service) where
  -- The task in work.
  abbrev pub begun : Task
  begun = after_transition task in_progress reason now

  -- The task whose sandbox could not be made.
  abbrev pub aborted : Task
  aborted = after_transition begun failed (error_text no_workspace) now

  abbrev pub with_begun : Service
  with_begun = record s { data' = store_task begun s.data' }

  abbrev pub agent : String
  agent = run_agent w.config begun

  -- The state once the sandbox is in the list and in the index.
  abbrev pub with_sandbox : Sandbox → Service
  with_sandbox sandbox = record {
    data' = record with_begun.data' {
      sandboxes = push with_begun.data'.sandboxes project_id sandbox;
    };
    index = record with_begun.index {
      sandbox_index = put with_begun.index.sandbox_index sandbox.id (some sandbox);
    };
  }

  pub start_task_run_cases {ℓ} :
      (P : Service × Result RunEnvelope → Type ℓ)
      → ((e : Error) → ¬ Ready s.data' task → P (s, err e))
      → (Ready s.data' task
          → P (
            record s { data' = store_task aborted (store_task begun s.data') },
            err no_workspace,
          ))
      → ((sandbox : Sandbox)
          → Ready s.data' task
          → w.workspace.create_private
              (private_sandbox w ids.sandbox project_id begun agent now)
              begun
            ≡ some sandbox
          → P (
            record_run w ids project_id begun agent now (with_sandbox sandbox) sandbox,
            ok (record {
              task = begun;
              run = new_run w ids.run project_id begun agent sandbox now;
            }),
          ))
      → P (start_task_run w ids project_id task now reason s)
  unfolding start_task_run start_moved create_private_sandbox
  start_task_run_cases P refused aborts starts = elim (ensure_task_ready-Ready s.data' task) [
    | inr (unready, (e, r)) ↦ rw (r, start_task_run) (refused e unready)
    | inl (r, ready) ↦ rw (r, start_task_run) (rw (moves ready, start_task_run) (rest ready))
  ]
    where
      moves : Ready s.data' task → transition_to task in_progress reason now ≡ moved begun
      moves ready =
          transition_to_ok task in_progress reason now (rw ready.waiting (Edge-allowed start))

      rest : Ready s.data' task → P (start_moved w ids project_id begun now with_begun)
      rest ready =
          elim (Option-cases (
            w.workspace.create_private (private_sandbox w ids.sandbox project_id begun agent now)
              begun)) [
                | inl e ↦
                    rw (e, create_private_sandbox, start_moved)
                      (rw (try_transition_ok begun failed (error_text no_workspace) now fail)
                        (aborts ready))
                | inr (sandbox, e) ↦
                    rw (e, create_private_sandbox, start_moved) (starts sandbox ready e)
              ]
