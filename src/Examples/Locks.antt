-- ===== src/Examples/Locks.antt =====
-- The theorem on code locks, applied to a state of the examples, with tests.
use multi_agent_com.Base.{
  ℕ, arith, ◌≡◌, ◌==◌, refl, none, some, [], ◌∷◌, put, trim, byte_length, join,
}
use multi_agent_com.Base.Int.{pos}
use multi_agent_com.Domain.Records.{CodeLock}
use multi_agent_com.Service.State.{Service, ok, err, conflict_error, persist}
use multi_agent_com.Service.Leases.{hitl_owner, hitl_expires_at, lease_active, validate_length}
use multi_agent_com.Service.Locks.{
  CodeLockInput, LockIds, CodeLockResult, check_code_lock, check_locked_text, check_lock_task,
  validate_code_lock, normalize_lock_mode, apply_code_lock, find_lock_conflict, code_lock_scope,
  hitl_lock_owner, queue_lock_conflict,
}
use multi_agent_com.Service.Locks.Bundle.{
  Stamp, applies, met, choose_locks, clash_line, bundle_locks,
}
use multi_agent_com.Service.Locks.Settled.{IsExclusive, apply_code_lock-Settled}
use multi_agent_com.Service.Locks.Symbols.{
  GoTools, func_decl, is_supported_kind, parse_selector, find_symbol, decl_range, first_range,
}
use multi_agent_com.Service.Locks.Exclusive.{Locked, apply_code_lock-Locked}
use multi_agent_com.Examples.{with_one_task, demo_world, accepting}

-- One function, documented by the marker.
abbrev tools : GoTools
tools = record {
  parse = λ _. ok (func_decl "F" none (record { doc = some 10; first = 29; last = 40 }) ∷ []);
  equal_fold = λ s t. s == t;
}

abbrev lock_ids : LockIds
lock_ids = record { lock = "lock"; conflict = "conflict"; communication = "comm"; audit = "audit" }

abbrev ann_locks : CodeLockInput
ann_locks = record {
  task_id = "";
  path = "a/b.go";
  content = "package p\n// LOCKED BY HUMAN\nfunc F() {}";
  lock_mode = "go_symbol";
  language = "";
  symbol_kind = "func";
  symbol_name = "F";
  created_by = "ann";
  owner = "";
  ttl_seconds = pos 60;
}

abbrev ann_lock : CodeLock
ann_lock = record {
  id = "lock";
  project_id = "proj";
  task_id = "";
  path = "a/b.go";
  content = "package p\n// LOCKED BY HUMAN\nfunc F() {}";
  lock_mode = "go_symbol";
  language = "";
  symbol_kind = "func";
  symbol_name = "F";
  created_by = "ann";
  owner = "ann";
  expires_at = 60_000_000_009;
  created_at = 9;
}

abbrev locked : CodeLockResult
locked = record {
  lock = ann_lock;
  message = "code lock registered and will be preserved on future bundle generations";
}

ann_ok :
    (apply_code_lock demo_world tools accepting lock_ids "proj" "" ann_locks 9 with_one_task).result
    ≡ ok locked
unfolding apply_code_lock check_code_lock check_locked_text check_lock_task validate_code_lock
    normalize_lock_mode is_supported_kind parse_selector find_symbol first_range decl_range trim
    validate_length byte_length hitl_expires_at hitl_owner find_lock_conflict persist
ann_ok = refl

apply_code_lock-Locked_example :
    Locked demo_world "proj" "lock" 9 with_one_task
      (apply_code_lock demo_world tools accepting lock_ids "proj" "" ann_locks 9 with_one_task)
      locked
apply_code_lock-Locked_example =
    apply_code_lock-Locked demo_world tools accepting lock_ids "proj" "" ann_locks 9 with_one_task
      locked ann_ok

-- Bob asks for the same function.
bob_waits :
    (apply_code_lock demo_world tools accepting lock_ids "proj" ""
      (record ann_locks { created_by = "bob" })
      10
      (record with_one_task {
        data' = record with_one_task.data' { locks = put (λ _. []) "proj" (ann_lock ∷ []) };
      })).result
    ≡ err (conflict_error "code lock lease conflict queued")
unfolding apply_code_lock check_code_lock check_locked_text check_lock_task validate_code_lock
    normalize_lock_mode is_supported_kind parse_selector find_symbol first_range decl_range trim
    validate_length byte_length hitl_expires_at hitl_owner find_lock_conflict persist
    queue_lock_conflict code_lock_scope hitl_lock_owner lease_active join
bob_waits = refl

-- Ann's lock, while she takes another one on the same function.
abbrev ann_holds : Service
ann_holds = record with_one_task {
  data' = record with_one_task.data' { locks = put (λ _. []) "proj" (ann_lock ∷ []) };
}

abbrev stamps : ℕ → Stamp
stamps _ = record { conflict = "conflict"; audit = "audit"; now = 20 }

apply_code_lock-Settled_example :
    let t =
      (apply_code_lock demo_world tools accepting lock_ids "proj" "" ann_locks 10
        ann_holds).state in
    let bundle = bundle_locks demo_world stamps "proj" "task" 20 t in
    IsExclusive demo_world 20 (t.data'.locks "proj") × (bundle.lines ≡ []) × (bundle.state ≡ t)
apply_code_lock-Settled_example =
    apply_code_lock-Settled demo_world tools accepting lock_ids "proj" "" ann_locks 10 20 ann_holds
      stamps "task" (tt, tt) (omega arith)

-- Where two owners hold one scope, the conflict is reported.
bob_overwrites :
    (bundle_locks demo_world stamps "proj" "task" 20 (record with_one_task {
      data' = record with_one_task.data' {
        locks = put (λ _. []) "proj" (ann_lock ∷ record ann_lock { owner = "bob" } ∷ []);
      };
    })).lines
    ≡ "conflicting active code locks for a/b.go between ann and bob; latest lock lock takes precedence"
      ∷ []
unfolding bundle_locks choose_locks applies lease_active met clash_line hitl_lock_owner trim
    code_lock_scope join
bob_overwrites = refl
