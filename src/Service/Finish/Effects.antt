-- ===== src/Service/Finish/Effects.antt =====
-- internal/service/service.go: what a run leaves when it ends, where the stores accept.
use multi_agent_com.Base.{
  Map, ℕ, String, ◌≡◌, refl, sym, ap, ◌∙◌, subst, ◌⊎◌, inl, inr, Option, some, snoc, put, put_self,
  true,
}
use multi_agent_com.Domain.Records.{AgentRun, RunStatus, Artifact, Alert}
use multi_agent_com.Domain.Task.{Task, TaskStatus, done, failed}
use multi_agent_com.Domain.Audit.{
  Edge, after_transition, try_transition_ok, finish, fail, finish_overridden, fail_overridden,
}
use multi_agent_com.Service.State.{
  Persisted, Service, World, Stored, Error, capture, restore, error_text,
}
use multi_agent_com.Service.Tasks.{store_task}
use multi_agent_com.Service.Runs.Safety.{IsSound}
use multi_agent_com.Service.Invariant.{IsActive}
use multi_agent_com.Service.Start.{Backend, in_process, repository, Answers}
use multi_agent_com.Service.Execution.{Snapshot}
use multi_agent_com.Service.Finish.{
  install, is_active, fail_task, failed_run, failure_alert, with_task, fail_candidate, fail_changes,
  fail_run, Product, succeeded_run, finish_task, complete_candidate, complete_run,
}

-- In process, or over a repository that stores the candidate.
abbrev pub Accepts : Backend → Answers → Type 0
Accepts b a = (b ≡ in_process) ⊎ (a.repo ≡ Stored.stored)

install_accepted :
    (b : Backend) (a : Answers) (candidate : Persisted) (s : Service)
    → Accepts b a
    → (install b a candidate s).data' ≡ candidate
unfolding install restore
install_accepted in_process a candidate s h = refl
install_accepted repository a candidate s (inl h) = absurd (cc h)
install_accepted repository a candidate s (inr h) = rw h

finish_Edge : {s : TaskStatus} → IsActive s → Edge s done
finish_Edge (inl e) = rw e finish
finish_Edge (inr e) = rw e finish_overridden

fail_Edge : {s : TaskStatus} → IsActive s → Edge s failed
fail_Edge (inl e) = rw e fail
fail_Edge (inr e) = rw e fail_overridden

active_is_active : (s : TaskStatus) → IsActive s → is_active s ≡ true
active_is_active s (inl e) = rw e
active_is_active s (inr e) = rw e

put_at :
    (tasks : Map (Option Task)) (t : Task) (k : String)
    → t.id ≡ k
    → put tasks t.id (some t) k ≡ some t
put_at tasks t k same =
    subst (λ x. put tasks t.id (some t) x ≡ some t) same (put_self tasks t.id (some t))

fail_task_active :
    (now : ℕ) (t : Task)
    → IsActive t.status
    → fail_task now t ≡ after_transition t failed "single agent execution failed" now
unfolding fail_task
fail_task_active now t active =
    rw (active_is_active t.status active, fail_task)
      (try_transition_ok t failed "single agent execution failed" now (fail_Edge active))

-- What is left of a run that has succeeded.
pub record Completed (run_id : String) (r : AgentRun) (task_id : String) (artifact : Artifact)
    (p : Persisted) : Type 0 where
  pub run : AgentRun
  pub stored_run : p.runs run_id ≡ some run
  pub succeeded : run.status ≡ RunStatus.succeeded
  pub same_task : run.task_id ≡ r.task_id
  pub delivered : run.artifact_ids ≡ snoc r.artifact_ids artifact.id
  pub task : Task
  pub stored_task : p.tasks task_id ≡ some task
  pub finished : task.status ≡ done
  pub output : task.output_ref ≡ artifact.uri
  pub stored_artifact : p.artifacts artifact.id ≡ some artifact

-- From a state in order, where the stores accept and the run and the task exist, the task being in
-- work, the end of `executeRun` leaves the run SUCCEEDED with the artifact at the end of its list,
-- the task DONE with the artifact as output, and the artifact stored.
pub complete_run-Completed :
    (b : Backend) (w : World) (a : Answers) (run_id : String) (snap : Snapshot) (product : Product)
    (now : ℕ) (s : Service) (r : AgentRun) (t : Task)
    → IsSound s
    → Accepts b a
    → s.data'.runs run_id ≡ some r
    → s.data'.tasks snap.task.id ≡ some t
    → IsActive t.status
    → Completed run_id r snap.task.id product.artifact
        (complete_run b w a run_id snap product now s).data'
unfolding complete_run complete_candidate succeeded_run finish_task store_task capture
complete_run-Completed b w a run_id snap product now s r t inv accepts run_found task_found active =
    rw (task_found, run_found, complete_run)
      (subst (Completed run_id r snap.task.id product.artifact)
        (sym (install_accepted b a (complete_candidate w run_id snap t r product now s) s accepts))
        (record {
          run = succeeded_run w s snap t r product now;
          stored_run = put_self s.data'.runs run_id _;
          succeeded = refl;
          same_task = refl;
          delivered = refl;
          task = ended;
          stored_task = put_at s.data'.tasks ended snap.task.id key;
          finished = ap (λ (x : Task). x.status) moves;
          output = ap (λ (x : Task). x.output_ref) moves;
          stored_artifact = put_self s.data'.artifacts product.artifact.id _;
        }))
  where
    ended : Task
    ended = finish_task product.artifact now t

    moves :
        ended
        ≡ after_transition
            (record t { output_ref = product.artifact.uri })
            done
            "single agent execution completed"
            now
    moves =
        try_transition_ok (record t { output_ref = product.artifact.uri }) done
          "single agent execution completed" now (finish_Edge active)

    key : ended.id ≡ snap.task.id
    key = ap (λ (x : Task). x.id) moves ∙ (inv.keyed snap.task.id t task_found).0

failed_run_lem :
    (w : World) (s : Service) (r : AgentRun) (message : String) (now : ℕ)
    → ((failed_run w s r message now).status ≡ RunStatus.failed)
      × ((failed_run w s r message now).error ≡ message)
unfolding failed_run
failed_run_lem w s r message now = (refl, refl)

-- What is left of a run that has failed.
pub record Failed (run_id : String) (r : AgentRun) (alert : Alert) (p q : Persisted) : Type 0 where
  pub run : AgentRun
  pub stored_run : q.runs run_id ≡ some run
  pub ended : run.status ≡ RunStatus.failed
  pub reason : run.error ≡ alert.message
  pub task : Task
  pub stored_task : q.tasks r.task_id ≡ some task
  pub task_failed : task.status ≡ failed
  pub raised : q.alerts r.project_id ≡ snoc (p.alerts r.project_id) alert

-- From a state in order, where the stores accept and the run and its task exist, the task being in
-- work, `failRun` leaves the run FAILED with the error's text, the task FAILED, and an alert of that
-- failure at the end of the project's alerts.
pub fail_run-Failed :
    (b : Backend) (w : World) (a : Answers) (alert_id run_id : String) (failure : Error) (now : ℕ)
    (s : Service) (r : AgentRun) (t : Task)
    → IsSound s
    → Accepts b a
    → s.data'.runs run_id ≡ some r
    → s.data'.tasks r.task_id ≡ some t
    → IsActive t.status
    → Failed run_id r
        (failure_alert alert_id r (error_text failure) now)
        s.data'
        (fail_run b w a alert_id run_id failure now s).data'
unfolding fail_run fail_candidate fail_changes failure_alert store_task capture
fail_run-Failed b w a alert_id run_id failure now s r t inv accepts run_found task_found active =
    rw (run_found, fail_run)
      (subst (Failed run_id r alert s.data')
        (sym (install_accepted b a (fail_candidate w alert_id run_id r message now s) s accepts))
        (subst
          (λ o.
            Failed run_id r alert s.data'
              (with_task (fail_task now) o (fail_changes w alert_id run_id r message now s)))
          (sym task_found)
          (record {
            run = failed_run w s r message now;
            stored_run = put_self s.data'.runs run_id _;
            ended = (failed_run_lem w s r message now).0;
            reason = (failed_run_lem w s r message now).1;
            task = ended;
            stored_task = put_at s.data'.tasks ended r.task_id key;
            task_failed = ap (λ (x : Task). x.status) moves;
            raised = put_self s.data'.alerts r.project_id _;
          })))
  where
    message : String
    message = error_text failure

    alert : Alert
    alert = failure_alert alert_id r message now

    ended : Task
    ended = fail_task now t

    moves : ended ≡ after_transition t failed "single agent execution failed" now
    moves = fail_task_active now t active

    key : ended.id ≡ r.task_id
    key = ap (λ (x : Task). x.id) moves ∙ (inv.keyed r.task_id t task_found).0
