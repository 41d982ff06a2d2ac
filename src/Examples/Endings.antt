-- ===== src/Examples/Endings.antt =====
-- The theorems on the end of runs, on batches and on tasks, applied to the states of the examples.
use multi_agent_com.Base.{
  String, ◌≡◌, ◌≢◌, refl, sym, ap, ◌∙◌, none, some, List, [], ◌∷◌, ◌⊎◌, inl, inr, trim,
}
use mathlib.Core.Option.{some-injective}
use multi_agent_com.Domain.Records.{AgentRun}
use multi_agent_com.Domain.Task.{
  Task, in_progress, done, failed, new_task, transition_to, moved, refused,
}
use multi_agent_com.Domain.Audit.{
  Edge, HasTrail, Request, requests, after_transition, refusal, transition_to-Edge,
  requests-new_task-HasTrail, requests_terminal, try_transition,
}
use multi_agent_com.Service.State.{Service, ok, err, Error, plain, persist}
use multi_agent_com.Service.Tasks.{ensure_task_ready, resolve_task, store_task}
use multi_agent_com.Service.Budget.{ensure_token_budget, projected_cost, type_tokens}
use multi_agent_com.Service.Tasks.Ready.{Ready, ensure_task_ready-Ready}
use multi_agent_com.Service.Runs.{
  start_task_run, new_run, start_moved, create_private_sandbox, record_run,
}
use multi_agent_com.Service.Runs.Safety.{IsSound}
use multi_agent_com.Service.Start.{in_process, repository, start_run}
use multi_agent_com.Service.Parallel.{
  Selection, select_ready, resolve_parallel_tasks, start_parallel_run,
}
use multi_agent_com.Service.Parallel.Selected.{Sorted, resolve_parallel_tasks-Sorted}
use multi_agent_com.Service.Parallel.Safety.{start_parallel_run-IsSound}
use multi_agent_com.Service.Execution.{Snapshot, apply_pending_override}
use multi_agent_com.Service.Finish.{
  fail_run, complete_run, fail_candidate, fail_changes, fail_task, failure_alert,
}
use multi_agent_com.Service.Finish.Safety.{
  fail_run-IsSound, complete_run-IsSound, apply_pending_override-IsSound,
}
use multi_agent_com.Service.Finish.Effects.{
  Completed, complete_run-Completed, Failed, fail_run-Failed,
}
use multi_agent_com.Service.State.{error_text}
use multi_agent_com.Service.Dispatch.{
  dispatch_tasks, retry_task, backend_task, frontend_task, integration_task,
  latest_plan_and_contract, find_dispatched,
}
use multi_agent_com.Service.Dispatch.Safety.{retry_task-IsSound}
use multi_agent_com.Examples.{
  demo_project, demo_plan, with_one_task, demo_world, dispatch_ids, accepting, demo_task,
  demo_override, demo_product, batch_ids,
}
use multi_agent_com.Examples.Witnesses.{
  running_service, running-IsSound, dispatched_service, dispatched-IsSound, demo_envelope, demo_pc,
}

-- The run has failed.
abbrev failed_service : Service
failed_service =
    fail_run in_process demo_world accepting "alert" "run" (plain "timeout") 9 running_service

fail_run-IsSound_example : IsSound failed_service
fail_run-IsSound_example =
    fail_run-IsSound in_process demo_world accepting "alert" "run" (plain "timeout") 9
      running_service running-IsSound

abbrev demo_snapshot : Snapshot
demo_snapshot = record {
  run = demo_envelope.run;
  task = demo_envelope.task;
  plan = demo_plan;
  project = demo_project;
  sandbox = none;
}

running_run : running_service.data'.runs "run" ≡ some demo_envelope.run
unfolding start_run resolve_task demo_task ensure_token_budget projected_cost trim type_tokens
    start_task_run ensure_task_ready transition_to start_moved create_private_sandbox persist
    record_run
running_run = refl

running_task : running_service.data'.tasks "task" ≡ some demo_envelope.task
unfolding start_run resolve_task demo_task ensure_token_budget projected_cost trim type_tokens
    start_task_run ensure_task_ready transition_to start_moved create_private_sandbox persist
    record_run store_task
running_task = refl

complete_run-Completed_example :
    Completed "run" demo_envelope.run "task" demo_product.artifact
      (complete_run repository demo_world accepting "run" demo_snapshot demo_product 9
        running_service).data'
unfolding demo_task
complete_run-Completed_example =
    complete_run-Completed repository demo_world accepting "run" demo_snapshot demo_product 9
      running_service demo_envelope.run demo_envelope.task running-IsSound (inr refl) running_run
      running_task (inl refl)

fail_run-Failed_example :
    Failed "run" demo_envelope.run
      (failure_alert "alert" demo_envelope.run (error_text (plain "timeout")) 9)
      running_service.data'
      failed_service.data'
unfolding demo_task new_run
fail_run-Failed_example =
    fail_run-Failed in_process demo_world accepting "alert" "run" (plain "timeout") 9
      running_service demo_envelope.run demo_envelope.task running-IsSound (inl refl) running_run
      running_task (inl refl)

complete_run-IsSound_example : IsSound (
    complete_run repository demo_world accepting "run" demo_snapshot demo_product 9 running_service)
unfolding demo_task new_run
complete_run-IsSound_example =
    complete_run-IsSound repository demo_world accepting "run" demo_snapshot demo_product 9
      running_service running-IsSound
      (λ r e. ap (λ (x : AgentRun). x.task_id) (some-injective _ _ (sym e ∙ running_run)))

-- The task in work, with an override that waits for the checkpoint.
abbrev overridden_service : Service
overridden_service = record running_service {
  data' = record running_service.data' { overrides = λ _. demo_override ∷ [] };
}

apply_pending_override-IsSound_example :
    IsSound (apply_pending_override none "run" 9 overridden_service).0
apply_pending_override-IsSound_example =
    apply_pending_override-IsSound none "run" 9 overridden_service running-IsSound

failed-IsSound : IsSound failed_service
failed-IsSound =
    fail_run-IsSound in_process demo_world accepting "alert" "run" (plain "timeout") 9
      running_service running-IsSound

again_unused : failed_service.data'.tasks "again" ≡ none
unfolding fail_run fail_candidate fail_changes fail_task try_transition new_run store_task start_run
    resolve_task demo_task ensure_token_budget projected_cost trim type_tokens start_task_run
    ensure_task_ready transition_to start_moved create_private_sandbox persist record_run
again_unused = refl

retry_task-IsSound_example :
    IsSound (retry_task in_process accepting "again" "proj" "task" 9 failed_service).0
retry_task-IsSound_example =
    retry_task-IsSound in_process accepting "again" "proj" "task" 9 failed_service failed-IsSound
      again_unused

no_run : (k : String) → dispatched_service.data'.runs k ≡ none
unfolding dispatch_tasks latest_plan_and_contract find_dispatched
no_run k = refl

start_parallel_run-IsSound_example :
    IsSound
      (start_parallel_run repository demo_world accepting batch_ids "batch" "proj" [] 9
        dispatched_service).state
start_parallel_run-IsSound_example =
    start_parallel_run-IsSound repository demo_world accepting batch_ids "batch" "proj" [] 9
      dispatched_service dispatched-IsSound (record { distinct = λ j k e. e; free = no_run })

-- The backend and the frontend task are ready, the integration task waits for them.
abbrev two_of_three : Selection
two_of_three = record {
  selected =
      backend_task dispatch_ids "proj" demo_pc 5 ∷ frontend_task dispatch_ids "proj" demo_pc 5 ∷ [];
  blocked = integration_task dispatch_ids "proj" demo_pc 5 ∷ [];
}

two_found : resolve_parallel_tasks dispatched_service.data' "proj" [] ≡ ok two_of_three
unfolding resolve_parallel_tasks select_ready dispatch_tasks latest_plan_and_contract
    find_dispatched integration_task backend_task frontend_task ensure_task_ready
two_found = refl

resolve_parallel_tasks-Sorted_example :
    Sorted dispatched_service.data' two_of_three × (two_of_three.selected ≢ [])
resolve_parallel_tasks-Sorted_example =
    resolve_parallel_tasks-Sorted dispatched_service.data' "proj" [] two_of_three two_found

-- The task in the state that it was created in, and after it was asked to finish at once.
ensure_task_ready-Ready_example :
    ((ensure_task_ready with_one_task.data' demo_task ≡ ok tt)
      × Ready with_one_task.data' demo_task)
    ⊎ ((¬ Ready with_one_task.data' demo_task)
        × ((e : Error) × (ensure_task_ready with_one_task.data' demo_task ≡ err e)))
ensure_task_ready-Ready_example = ensure_task_ready-Ready with_one_task.data' demo_task

transition_to-Edge_example :
    (Edge demo_task.status done
      × (transition_to demo_task done "early" 6
          ≡ moved (after_transition demo_task done "early" 6)))
    ⊎ ((¬ Edge demo_task.status done)
        × (transition_to demo_task done "early" 6 ≡ refused (refusal demo_task done)))
transition_to-Edge_example = transition_to-Edge demo_task done "early" 6

abbrev demo_requests : List Request
demo_requests =
    record { next = done; reason = "early"; at = 6 }
    ∷ record { next = in_progress; reason = "go"; at = 7 }
    ∷ record { next = failed; reason = "broken"; at = 8 }
    ∷ []

requests-new_task-HasTrail_example :
    HasTrail (requests (new_task "t" "p" "l" "n" "k" "a" [] "i" 4) demo_requests)
requests-new_task-HasTrail_example =
    requests-new_task-HasTrail "t" "p" "l" "n" "k" "a" [] "i" 4 demo_requests

abbrev failed_task : Task
failed_task = record demo_task { status = failed }

requests_terminal_example : requests failed_task demo_requests ≡ failed_task
requests_terminal_example = requests_terminal failed_task demo_requests (inr refl)
