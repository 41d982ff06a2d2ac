-- ===== src/Service/Locks.antt =====
-- internal/service/service.go: `ApplyCodeLock`, on a system whose paths are those of Unix.
pub mod Symbols
pub mod Checks
pub mod Exclusive
pub mod Bundle
pub mod Settled
use multi_agent_com.Base.{
  ℕ, String, ◌==◌, ◌+++◌, Bool, ◌&&◌, ◌||◌, not, true, false, Option, none, some, List, [], ◌∷◌,
  put, trim, is_empty, has_text, starts_with, find_first, join, bytes_between, if◌then◌else◌,
}
use multi_agent_com.Base.Int.{ℤ}
use multi_agent_com.Domain.Records.{Project, CodeLock, ConflictQueueEntry}
use multi_agent_com.Domain.Task.{Task}
use multi_agent_com.Service.State.{
  Persisted, Service, World, Result, ok, err, Error, plain, not_found_error, validation_error,
  conflict_error, persist, push, or_fail, guard, ◌>>=◌, ◌>>◌,
}
use multi_agent_com.Service.Logs.{record_communication, record_audit}
use multi_agent_com.Service.Tasks.{resolve_task}
use multi_agent_com.Service.Leases.{
  first_named, hitl_owner, hitl_expires_at, lease_active, Limit, limit_256, validate_length,
}
use multi_agent_com.Service.Start.{Answers}
use multi_agent_com.Service.Dispatch.{touch_project}
use multi_agent_com.Service.Overrides.{new_conflict, enqueue_conflict}
use multi_agent_com.Service.Locks.Symbols.{GoTools, is_supported_kind, parse_selector, find_symbol}

-- `ApplyCodeLockInput`
pub record CodeLockInput : Type 0 where
  pub task_id : String
  pub path : String
  pub content : String
  pub lock_mode : String
  pub language : String
  pub symbol_kind : String
  pub symbol_name : String
  pub created_by : String
  pub owner : String
  pub ttl_seconds : ℤ

-- The IDs that `nextID` draws for one lock.
pub record LockIds : Type 0 where
  pub lock : String
  pub conflict : String
  pub communication : String
  pub audit : String

-- `CodeLockResult` of a success.
pub record CodeLockResult : Type 0 where
  pub lock : CodeLock
  pub message : String

-- What the handler leaves; `conflict` is the queued one, which the result holds beside the error.
pub record LockReply : Type 0 where
  pub state : Service
  pub conflict : Option ConflictQueueEntry
  pub result : Result CodeLockResult

abbrev path_limit : Limit
path_limit = record { bytes = 1024; digits = "1024" }

abbrev content_limit : Limit
content_limit = record { bytes = 65536; digits = "65536" }

abbrev pub marker : String
marker = "LOCKED BY HUMAN"

-- `normalizeLockMode`
unfoldable pub normalize_lock_mode : World → String → String
normalize_lock_mode w mode =
    let m = w.to_lower (trim mode) in
    if is_empty m then "file" else if (m == "file") || (m == "go_symbol") then m else ""

-- `strings.HasSuffix(path, ".go")`
abbrev pub is_go_path : String → Bool
is_go_path String.[] = false
is_go_path (String.◌∷◌ c s) = let rest = is_go_path s in (String.◌∷◌ c s == ".go") || rest

-- `validateCodeLock`
unfoldable pub validate_code_lock :
    World → GoTools → String → String → String → String → String → String → Result (Unit {0})
validate_code_lock w g path content mode language kind name = if mode == "file" then ok tt else do
  guard (mode == "go_symbol") (validation_error "lockMode must be file or go_symbol")
  guard (is_go_path path) (validation_error "go_symbol locks require a Go source path")
  guard (is_empty language || g.equal_fold language "go")
      (validation_error "go_symbol locks require language go")
  guard (is_supported_kind w kind)
      (validation_error "go_symbol locks support symbolKind func, method, type, var, or const")
  guard (not (is_empty name)) (validation_error "symbolName is required for go_symbol locks")
  m ← find_symbol w g content kind (parse_selector g kind name)
  guard (has_text (bytes_between m.first m.last 0 content) marker)
      (validation_error "go_symbol lock marker must be inside selected Go symbol")

-- The checks of `ApplyCodeLock` on the path and the content.
unfoldable pub check_locked_text : String → String → Result (Unit {0})
check_locked_text path content = do
  guard (not (is_empty path)) (validation_error "path is required for code lock")
  validate_length path "path" path_limit
  guard (not (starts_with path "/" || has_text path ".."))
      (validation_error "path must be a relative bundle path")
  guard (not (is_empty (trim content))) (validation_error "content is required for code lock")
  validate_length content "content" content_limit
  guard (has_text content marker) (validation_error "content must include LOCKED BY HUMAN marker")

-- A lock for a task names a task of the project.
unfoldable pub check_lock_task : Persisted → String → String → Result (Unit {0})
check_lock_task p project_id task_id =
    if is_empty (trim task_id) then ok tt else resolve_task p project_id task_id >>= λ _. ok tt

-- The lock that `ApplyCodeLock` makes, without its ID, when its checks succeed.
unfoldable pub check_code_lock :
    World
    → GoTools
    → Persisted
    → String
    → String
    → String
    → CodeLockInput
    → ℕ
    → Result (Project × CodeLock)
unfolding normalize_lock_mode
check_code_lock w g p id project_id actor input now = do
  project ← or_fail (p.projects project_id) (not_found_error "project not found")
  check_locked_text (trim input.path) input.content
  guard (not (is_empty (normalize_lock_mode w input.lock_mode)))
      (validation_error "lockMode must be file or go_symbol")
  validate_length (trim input.created_by) "createdBy" limit_256
  validate_code_lock w g (trim input.path) input.content (normalize_lock_mode w input.lock_mode)
      (trim input.language) (trim input.symbol_kind) (trim input.symbol_name)
  check_lock_task p project_id input.task_id
  expires_at ← hitl_expires_at now input.ttl_seconds
  ok (
    project,
    record {
      id = id;
      project_id = project_id;
      task_id = trim input.task_id;
      path = trim input.path;
      content = input.content;
      lock_mode = normalize_lock_mode w input.lock_mode;
      language = trim input.language;
      symbol_kind = trim input.symbol_kind;
      symbol_name = trim input.symbol_name;
      created_by =
          if is_empty (trim input.created_by)
          then hitl_owner actor input.owner (trim input.created_by)
          else trim input.created_by;
      owner = hitl_owner actor input.owner (trim input.created_by);
      expires_at = expires_at;
      created_at = now;
    },
  )

-- `codeLockScope`
unfoldable pub code_lock_scope : World → CodeLock → String
unfolding normalize_lock_mode
code_lock_scope w l =
    if normalize_lock_mode w l.lock_mode == "go_symbol"
    then join ":" ("go_symbol" ∷ l.path ∷ w.to_lower (trim l.symbol_kind) ∷ trim l.symbol_name ∷ [])
    else "file:" +++ trim l.path

-- `hitlLockOwner`
unfoldable pub hitl_lock_owner : CodeLock → String
hitl_lock_owner l = first_named (l.owner ∷ l.created_by ∷ [])

-- A lock in force on the scope, that another one owns.
unfoldable pub lock_clashes : World → String → String → ℕ → CodeLock → Bool
lock_clashes w scope owner now l =
    lease_active now l.expires_at
    && (code_lock_scope w l == scope)
    && not (hitl_lock_owner l == owner)

-- The loop of `findActiveCodeLockConflictLocked`.
unfoldable pub find_lock_conflict : World → List CodeLock → CodeLock → ℕ → Option CodeLock
unfolding lock_clashes
find_lock_conflict w locks requested now =
    find_first (lock_clashes w (code_lock_scope w requested) (hitl_lock_owner requested) now) locks

-- The conflict that a requested lock meets.
unfoldable pub lock_conflict :
    World → String → String → CodeLock → CodeLock → ℕ → ConflictQueueEntry
lock_conflict w id project_id requested current now =
    new_conflict id project_id requested.task_id "code_lock" (code_lock_scope w requested)
      current.id (hitl_lock_owner requested) (hitl_lock_owner current)
      "active code lock lease is owned by another operator" now

-- The lock in the list, in the index and in the logs.
unfoldable pub record_lock :
    World → LockIds → String → String → Project → CodeLock → ℕ → Service → Service
unfolding record_communication record_audit
record_lock w ids project_id actor project l now s = record {
  data' = touch_project project project_id now (
      record_audit ids.audit actor project_id "CODE_LOCK_APPLY" "code_lock" l.id
        ("code lock registered for " +++ l.path) now
        (record_communication w ids.communication project_id ("human:" +++ l.created_by)
          "delivery-engine" "CODE_LOCK" l.task_id ("lock://" +++ l.id) now
          (record s.data' { locks = push s.data'.locks project_id l })));
  index = record s.index { lock_index = put s.index.lock_index l.id (some l) };
}

-- The rest of `ApplyCodeLock`, where no other lock is in the way.
unfoldable pub accept_lock :
    World → Answers → LockIds → String → String → Project → CodeLock → ℕ → Service → LockReply
unfolding record_lock
accept_lock w a ids project_id actor project l now s = record {
  state = record_lock w ids project_id actor project l now s;
  conflict = none;
  result = persist a.save >>= λ _. ok (record {
    lock = l;
    message = "code lock registered and will be preserved on future bundle generations";
  });
}

-- A conflict is queued, and reported as an error.
unfoldable pub queue_lock_conflict :
    World
    → Answers
    → LockIds
    → String
    → String
    → Project
    → CodeLock
    → CodeLock
    → ℕ
    → Service
    → LockReply
unfolding enqueue_conflict
queue_lock_conflict w a ids project_id actor project l current now s =
    let conflict = lock_conflict w ids.conflict project_id l current now in
    let queued = enqueue_conflict ids.audit actor project_id conflict now s in
    let s' = record queued { data' = touch_project project project_id now queued.data' } in
    elim (persist a.save) [
      | err e ↦ record { state = s'; conflict = none; result = err e }
      | ok _ ↦ record {
        state = s';
        conflict = some conflict;
        result = err (conflict_error "code lock lease conflict queued");
      }
    ]

-- `ApplyCodeLock`
unfoldable pub apply_code_lock :
    World → GoTools → Answers → LockIds → String → String → CodeLockInput → ℕ → Service → LockReply
unfolding accept_lock queue_lock_conflict find_lock_conflict
apply_code_lock w g a ids project_id actor input now s = elim a.lock [
  | some e ↦ record { state = s; conflict = none; result = err (plain e) }
  | none ↦ elim (check_code_lock w g s.data' ids.lock project_id actor input now) [
    | err e ↦ record { state = s; conflict = none; result = err e }
    | ok (project, l) ↦ elim (find_lock_conflict w (s.data'.locks project_id) l now) [
      | some current ↦ queue_lock_conflict w a ids project_id actor project l current now s
      | none ↦ accept_lock w a ids project_id actor project l now s
    ]
  ]
]
