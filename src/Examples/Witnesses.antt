-- ===== src/Examples/Witnesses.antt =====
-- The theorems of the library, applied to the states of the examples.
use multi_agent_com.Base.{none, ◌≡◌, refl, [], trim, unequal}
use multi_agent_com.Domain.Task.{new_task, transition_to}
use multi_agent_com.Domain.Audit.{born}
use multi_agent_com.Service.State.{plain, Service, ok, err, persist}
use multi_agent_com.Service.Tasks.{ensure_task_ready, resolve_task}
use multi_agent_com.Service.Budget.{ensure_token_budget, projected_cost, type_tokens}
use multi_agent_com.Service.Runs.{
  StartIds, RunEnvelope, start_task_run, new_run, run_agent, private_sandbox, start_moved,
  create_private_sandbox,
}
use multi_agent_com.Service.Runs.Outcomes.{begun, no_workspace}
use multi_agent_com.Service.Runs.Safety.{IsSound}
use multi_agent_com.Service.Invariant.{put_idle}
use multi_agent_com.Service.Start.{in_process, repository, start_run, prepare_run}
use multi_agent_com.Service.Start.Steps.{Undone}
use multi_agent_com.Service.Start.Replies.{
  Launched, start_run-Launched, start_run-IsSound, start_run_error,
}
use multi_agent_com.Service.Start.Backends.{Alike, start_run-backends}
use multi_agent_com.Service.Start.Stranded.{saving, LeftRunning, start_run_stranded}
use multi_agent_com.Service.Finish.{fail_run}
use multi_agent_com.Service.Machine.{
  IsFresh, IsFresh-IsSound, here, after, dispatches, starts, fails, Reach-IsSound,
}
use multi_agent_com.Service.Dispatch.{
  dispatch_tasks, PlanAndContract, DispatchTasksResult, new_tasks, latest_plan_and_contract,
  find_dispatched,
}
use multi_agent_com.Service.Dispatch.Again.{dispatch_twice}
use multi_agent_com.Service.Dispatch.Safety.{Unused, dispatch_tasks-IsSound}
use multi_agent_com.Examples.{
  demo_project, demo_plan, demo_contract, planned_service, with_one_task, demo_world, broken_world,
  demo_ids, dispatch_ids, accepting, losing, demo_task,
}

pub planned-IsFresh : IsFresh planned_service
planned-IsFresh = record { no_tasks = λ k. refl; no_runs = λ k. refl }

pub with_one_task-IsSound : IsSound with_one_task
unfolding demo_task new_task
with_one_task-IsSound =
    put_idle (IsFresh-IsSound planned_service planned-IsFresh) demo_task (born "task created" 4)
      λ k r e. absurd (cc e)

-- The task is in work.
abbrev pub running_service : Service
running_service =
    (start_run in_process demo_world accepting demo_ids "proj" "task" 5 with_one_task).state

pub running-IsSound : IsSound running_service
running-IsSound =
    start_run-IsSound in_process demo_world accepting demo_ids "proj" "task" 5 with_one_task
      with_one_task-IsSound refl

pub dispatch_ids-Unused : Unused dispatch_ids planned_service.data'
dispatch_ids-Unused = record { backend = refl; frontend = refl; integration = refl }

abbrev pub dispatched_service : Service
dispatched_service =
    (dispatch_tasks repository demo_world accepting dispatch_ids "proj" 5 planned_service).0

pub dispatched-IsSound : IsSound dispatched_service
dispatched-IsSound =
    dispatch_tasks-IsSound repository demo_world accepting dispatch_ids "proj" 5 planned_service
      (IsFresh-IsSound planned_service planned-IsFresh) dispatch_ids-Unused

run_unused : dispatched_service.data'.runs "run" ≡ none
unfolding dispatch_tasks latest_plan_and_contract find_dispatched
run_unused = refl

-- The run of the first task, started and failed.
abbrev started_service : Service
started_service =
    (start_run repository demo_world accepting demo_ids "proj" "b" 6 dispatched_service).state

abbrev ended_service : Service
ended_service =
    fail_run repository demo_world accepting "alert" "run" (plain "timeout") 7 started_service

Reach-IsSound_example : IsSound ended_service
Reach-IsSound_example =
    Reach-IsSound repository demo_world planned_service ended_service planned-IsFresh (
      after
        (after (after here (dispatches accepting dispatch_ids "proj" 5 dispatch_ids-Unused))
          (starts accepting demo_ids "proj" "b" 6 run_unused))
        (fails accepting "alert" "run" (plain "timeout") 7))

abbrev pub demo_envelope : RunEnvelope
demo_envelope =
    let task =
      begun demo_world demo_ids "proj" demo_task 5 "single agent execution started" with_one_task in
    let agent = run_agent demo_world.config task in
    record {
      task = task;
      run =
          new_run demo_world "run" "proj" task agent
            (private_sandbox demo_world "sandbox" "proj" task agent 5) 5;
    }

started_ok :
    (start_run in_process demo_world accepting demo_ids "proj" "task" 5 with_one_task).result
    ≡ ok demo_envelope
unfolding start_run resolve_task demo_task ensure_token_budget projected_cost trim type_tokens
    start_task_run ensure_task_ready transition_to start_moved create_private_sandbox persist
started_ok = refl

start_run-Launched_example :
    Launched demo_world with_one_task "proj" "task"
      (start_run in_process demo_world accepting demo_ids "proj" "task" 5 with_one_task)
      demo_envelope
start_run-Launched_example =
    start_run-Launched in_process demo_world accepting demo_ids "proj" "task" 5 with_one_task
      demo_envelope started_ok

abbrev pub demo_pc : PlanAndContract
demo_pc = record { project = demo_project; plan = demo_plan; contract = demo_contract }

abbrev dispatch_result : DispatchTasksResult
dispatch_result = new_tasks dispatch_ids "proj" demo_pc 5

dispatch_ok :
    (dispatch_tasks repository demo_world accepting dispatch_ids "proj" 5 planned_service).1
    ≡ ok dispatch_result
unfolding dispatch_tasks latest_plan_and_contract find_dispatched
dispatch_ok = refl

dispatch_twice_example :
    dispatch_tasks repository demo_world losing dispatch_ids "proj" 9 dispatched_service
    ≡ (dispatched_service, ok dispatch_result)
dispatch_twice_example =
    dispatch_twice repository demo_world accepting losing dispatch_ids dispatch_ids "proj" 5 9
      planned_service dispatch_result
      (record {
        backend = tt;
        frontend = tt;
        integration = tt;
        backend_frontend = unequal "f" "b" refl;
        backend_integration = unequal "i" "b" refl;
        frontend_integration = unequal "i" "f" refl;
      })
      refl dispatch_ok

broken_err :
    (start_run repository broken_world accepting demo_ids "proj" "task" 5 with_one_task).result
    ≡ err no_workspace
unfolding start_run resolve_task demo_task ensure_token_budget projected_cost trim type_tokens
    start_task_run ensure_task_ready transition_to start_moved create_private_sandbox persist
broken_err = refl

start_run_error_example :
    ((start_run repository broken_world accepting demo_ids "proj" "task" 5 with_one_task).launched
      ≡ [])
    × (repository ≡ repository
        → Undone broken_world demo_ids "proj" 5 with_one_task
            (start_run repository broken_world accepting demo_ids "proj" "task" 5
              with_one_task).state.data')
start_run_error_example =
    start_run_error repository broken_world accepting demo_ids "proj" "task" 5 with_one_task
      no_workspace broken_err

start_run-backends_example :
    Alike
      (start_run in_process demo_world accepting demo_ids "proj" "task" 5 with_one_task)
      (start_run repository demo_world accepting demo_ids "proj" "task" 5 with_one_task)
start_run-backends_example =
    start_run-backends demo_world accepting demo_ids "proj" "task" 5 with_one_task refl refl

started_one :
    (start_task_run demo_world demo_ids "proj" demo_task 5 "single agent execution started"
      with_one_task).1
    ≡ ok demo_envelope
unfolding start_task_run ensure_task_ready demo_task transition_to start_moved
    create_private_sandbox
started_one = refl

would_start :
    (start_run in_process demo_world (saving losing) demo_ids "proj" "task" 5 with_one_task).result
    ≡ ok demo_envelope
unfolding start_run prepare_run resolve_task demo_task ensure_token_budget projected_cost trim
    type_tokens start_task_run ensure_task_ready transition_to start_moved create_private_sandbox
    persist
would_start = refl

abbrev later_ids : StartIds
later_ids = record { sandbox = "sandbox-2"; run = "run-2"; communication = "comm-2" }

start_run_stranded_example :
    let r = start_run in_process demo_world losing demo_ids "proj" "task" 5 with_one_task in
    let next = start_run in_process demo_world accepting later_ids "proj" "task" 6 r.state in
    LeftRunning r demo_envelope "disk full"
    × ¬ (
        (e' : RunEnvelope) × ((next.result ≡ ok e') × (e'.run.task_id ≡ demo_envelope.run.task_id)))
start_run_stranded_example =
    start_run_stranded demo_world losing demo_ids "proj" "task" 5 with_one_task demo_envelope
      "disk full" in_process demo_world accepting later_ids "proj" "task" 6 with_one_task-IsSound
      refl refl would_start

start_run-IsSound_example :
    IsSound
      (start_run repository broken_world accepting demo_ids "proj" "task" 5 with_one_task).state
start_run-IsSound_example =
    start_run-IsSound repository broken_world accepting demo_ids "proj" "task" 5 with_one_task
      with_one_task-IsSound refl

dispatch_tasks-IsSound_example :
    IsSound (dispatch_tasks in_process demo_world losing dispatch_ids "proj" 5 planned_service).0
dispatch_tasks-IsSound_example =
    dispatch_tasks-IsSound in_process demo_world losing dispatch_ids "proj" 5 planned_service
      (IsFresh-IsSound planned_service planned-IsFresh) dispatch_ids-Unused
