-- ===== src/Examples/Leases.antt =====
-- The theorems on human overrides and conflicts, applied to the states of the examples.
use multi_agent_com.Base.{
  mem-cons_self, unequal, ◌≡◌, refl, none, some, [], ◌∷◌, put, trim, byte_length,
}
use multi_agent_com.Base.Int.{pos}
use multi_agent_com.Domain.Task.{Task, TaskStatus, in_progress, transition_to}
use multi_agent_com.Domain.Audit.{after_transition}
use multi_agent_com.Service.State.{Service, ok, err, Error, persist}
use multi_agent_com.Service.Tasks.{resolve_task}
use multi_agent_com.Service.Runs.Safety.{IsSound}
use multi_agent_com.Service.Leases.{
  hitl_owner, hitl_expires_at, hitl_override_owner, override_scope, validate_length,
}
use multi_agent_com.Service.Execution.{is_pending}
use multi_agent_com.Service.Overrides.{
  OverrideRequest, HumanOverrideResult, check_override, override_conflict, new_conflict,
  apply_human_override, new_override, override_task, active_run,
}
use multi_agent_com.Service.Overrides.Safety.{apply_human_override-IsSound}
use multi_agent_com.Service.Overrides.Granted.{Granted, apply_human_override-Granted}
use multi_agent_com.Service.Overrides.Conflicted.{Bars, Conflicted, apply_human_override_conflict}
use multi_agent_com.Service.Conflicts.{ResolveInput, resolve_conflict, resolved}
use multi_agent_com.Service.Conflicts.Once.{resolve_conflict_once}
use multi_agent_com.Examples.{
  with_one_task, demo_world, demo_project, demo_task, demo_override, accepting, override_ids,
  bob_asks,
}
use multi_agent_com.Examples.Witnesses.{running_service, running-IsSound}

apply_human_override-IsSound_example :
    IsSound
      (apply_human_override demo_world accepting override_ids "proj" "bob" bob_asks 9
        running_service).state
apply_human_override-IsSound_example =
    apply_human_override-IsSound demo_world accepting override_ids "proj" "bob" bob_asks 9
      running_service running-IsSound

-- The task in work, by hand.
abbrev working_task : Task
working_task = record demo_task { status = in_progress }

abbrev working_service : Service
working_service = record with_one_task {
  data' = record with_one_task.data' { tasks = λ _. some working_task };
}

abbrev bob_request : OverrideRequest
bob_request = record {
  project = demo_project;
  task = working_task;
  operator = "bob";
  owner = "bob";
  instruction = "stop";
  lock_scope = "TASK";
  expires_at = 60_000_000_009;
}

abbrev granted : HumanOverrideResult
granted = record {
  override = new_override "new" "proj" bob_request 9;
  task =
      after_transition working_task TaskStatus.human_override "human override requested by bob" 9;
  run = none;
  message = "human override queued for next safety checkpoint";
}

bob_ok :
    (apply_human_override demo_world accepting override_ids "proj" "bob" bob_asks 9
      working_service).result
    ≡ ok granted
unfolding apply_human_override check_override resolve_task demo_task trim validate_length
    byte_length hitl_expires_at override_task transition_to persist hitl_owner active_run
bob_ok = refl

apply_human_override-Granted_example :
    Granted demo_world "proj" 9 working_service
      (apply_human_override demo_world accepting override_ids "proj" "bob" bob_asks 9
        working_service)
      granted
apply_human_override-Granted_example =
    apply_human_override-Granted demo_world accepting override_ids "proj" "bob" bob_asks 9
      working_service granted bob_ok

-- Ann's override waits already.
abbrev taken_service : Service
taken_service = record working_service {
  data' = record working_service.data' { overrides = put (λ _. []) "proj" (demo_override ∷ []) };
}

bob_checked : check_override taken_service.data' "proj" "bob" bob_asks 9 ≡ ok bob_request
unfolding check_override resolve_task demo_task trim validate_length byte_length hitl_expires_at
    hitl_owner
bob_checked = refl

ann-Bars : Bars demo_world bob_request 9 demo_override
unfolding is_pending demo_task hitl_override_owner trim override_scope
ann-Bars = record { waits = refl; same_scope = refl; other_owner = unequal "ann" "bob" refl }

apply_human_override_conflict_example :
    Conflicted demo_world "proj" "conflict" bob_request 9 taken_service
      (apply_human_override demo_world accepting override_ids "proj" "bob" bob_asks 9 taken_service)
apply_human_override_conflict_example =
    apply_human_override_conflict demo_world accepting override_ids "proj" "bob" bob_asks 9
      taken_service bob_request demo_override refl refl bob_checked mem-cons_self ann-Bars

-- A lease of 9.3 billion seconds has ended before it starts.
endless : hitl_expires_at 9 (pos 9_300_000_000) ≡ ok 1
unfolding hitl_expires_at
endless = refl

-- The queued conflict.
abbrev queued_service : Service
queued_service = record taken_service {
  index = record taken_service.index {
    conflict_index =
        λ _. some (override_conflict demo_world "conflict" "proj" bob_request demo_override 9);
  };
}

abbrev carl_decides : ResolveInput
carl_decides = record { resolved_by = "carl"; resolution_note = "ann goes first" }

resolve_ok :
    (resolve_conflict accepting "audit" "" "proj" "conflict" carl_decides 10 queued_service).1
    ≡ ok (
        resolved "" carl_decides 10
          (override_conflict demo_world "conflict" "proj" bob_request demo_override 9))
unfolding resolve_conflict override_conflict new_conflict validate_length byte_length trim persist
resolve_ok = refl

resolve_conflict_once_example :
    let q =
      resolved "" carl_decides 10
        (override_conflict demo_world "conflict" "proj" bob_request demo_override 9) in
    let t =
      (resolve_conflict accepting "audit" "" "proj" "conflict" carl_decides 10 queued_service).0 in
    (q.status ≡ "RESOLVED")
    × (q.resolved_at ≡ 10)
    × (t.index.conflict_index (trim "conflict") ≡ some q)
    × ((e : Error) × (resolve_conflict accepting "again" "" "proj" "conflict" carl_decides 11 t
          ≡ (t, err e)))
resolve_conflict_once_example =
    resolve_conflict_once accepting "again" "" "proj" "conflict" carl_decides 10 11 accepting
      "audit" "" carl_decides queued_service
      (resolved "" carl_decides 10
        (override_conflict demo_world "conflict" "proj" bob_request demo_override 9))
      resolve_ok
