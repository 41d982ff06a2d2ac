-- ===== src/Service/State.antt =====
-- internal/service/service.go: the errors, the state of `Service`, its persisted form, and how
-- the one is captured from the other and restored. A pointer that two maps share is a value that
-- stands in both; a clone is the value itself.
use multi_agent_com.Base.{
  ℕ, String, Bool, Option, none, some, List, [], ◌∷◌, Map, put, if◌then◌else◌, snoc, ◌≡◌, refl, ◌⊎◌,
  inl, inr,
}
use multi_agent_com.Domain.Records.{
  Project, Requirement, Plan, Contract, ContextInjection, Sandbox, Snapshot, HumanOverride,
  CodeLock, ConflictQueueEntry, Preview, CommunicationLog, AuditLog, Alert, AgentRun, Artifact,
}
use multi_agent_com.Domain.Task.{Task}

pub record AppError : Type 0 where
  pub code : String
  pub status_code : ℕ
  pub message : String

-- An `error` that is no `*AppError` is a `plain` one. `crash` is a nil pointer dereference.
pub data Error : Type 0 where
  app : AppError → Error
  plain : String → Error
  crash : Error

-- `Error()`
unfoldable pub error_text : Error → String
error_text (app e) = e.message
error_text (plain message) = message
error_text crash = "runtime error: invalid memory address or nil pointer dereference"

abbrev pub validation_error : String → Error
validation_error m = app (record { code = "VALIDATION_ERROR"; status_code = 400; message = m })

abbrev pub not_found_error : String → Error
not_found_error m = app (record { code = "NOT_FOUND"; status_code = 404; message = m })

abbrev pub conflict_error : String → Error
conflict_error m = app (record { code = "CONFLICT"; status_code = 409; message = m })

abbrev pub internal_error : String → String → Error
internal_error code m = app (record { code = code; status_code = 500; message = m })

pub data Result {ℓ} (A : Type ℓ) : Type ℓ where
  ok : A → Result A
  err : Error → Result A

pub Result-cases {ℓ} :
    {A : Type ℓ} (r : Result A) → ((a : A) × (r ≡ ok a)) ⊎ ((e : Error) × (r ≡ err e))
Result-cases (ok a) = inl (a, refl)
Result-cases (err e) = inr (e, refl)

pub ok-injective {ℓ} : {A : Type ℓ} {x y : A} → ok x ≡ ok y → x ≡ y
ok-injective h = cc h

-- `if !b { return e }`
abbrev pub guard : Bool → Error → Result (Unit {0})
guard b e = if b then ok tt else err e

-- `if x == nil { return e }`
abbrev pub or_fail {ℓ} : {A : Type ℓ} → Option A → Error → Result A
or_fail none e = err e
or_fail (some a) e = ok a

-- What follows a call that may fail: `if err != nil { return err }`.
infixl 5 ◌>>=◌ ◌>>◌
abbrev pub ◌>>=◌ {ℓ κ} : {X : Type ℓ} {Y : Type κ} → Result X → (X → Result Y) → Result Y
err e >>= next = err e
ok x >>= next = next x

abbrev pub ◌>>◌ {ℓ} : {Y : Type ℓ} → Result (Unit {0}) → Result Y → Result Y
check >> rest = check >>= λ _. rest

-- `projectSnapshotState`
pub record SnapshotState : Type 0 where
  pub project : Option Project
  pub requirements : List Requirement
  pub plans : List Plan
  pub contracts : List Contract
  pub contexts : Map (Option (List ContextInjection))
  pub sandboxes : List Sandbox
  pub tasks : Map (Option Task)
  pub task_order : List String
  pub runs : Map (Option AgentRun)
  pub run_order : List String
  pub artifacts : Map (Option Artifact)
  pub artifact_order : List String

-- `persistedServiceState`, less its version number, which is always 1.
pub record Persisted : Type 0 where
  pub projects : Map (Option Project)
  pub requirements : Map (List Requirement)
  pub plans : Map (List Plan)
  pub contracts : Map (List Contract)
  pub contexts : Map (List ContextInjection)
  pub overrides : Map (List HumanOverride)
  pub locks : Map (List CodeLock)
  pub conflicts : Map (List ConflictQueueEntry)
  pub previews : Map (List Preview)
  pub communications : Map (List CommunicationLog)
  pub audit_logs : Map (List AuditLog)
  pub alerts : Map (List Alert)
  pub sandboxes : Map (List Sandbox)
  pub sandbox_faults : Map String
  pub snapshots : Map (List Snapshot)
  pub snapshot_state : Map (Option SnapshotState)
  pub project_branch : Map String
  pub stable_branch : Map String
  pub branch_seq : Map ℕ
  pub tasks : Map (Option Task)
  pub task_order : Map (List String)
  pub runs : Map (Option AgentRun)
  pub run_order : Map (List String)
  pub artifacts : Map (Option Artifact)
  pub artifact_order : Map (List String)

-- The maps of `Service` from an ID to a record that one of the lists above holds.
pub record Indexes : Type 0 where
  pub plan_index : Map (Option Plan)
  pub contract_index : Map (Option Contract)
  pub context_index : Map (Option ContextInjection)
  pub override_index : Map (Option HumanOverride)
  pub lock_index : Map (Option CodeLock)
  pub conflict_index : Map (Option ConflictQueueEntry)
  pub preview_index : Map (Option Preview)
  pub sandbox_index : Map (Option Sandbox)
  pub snapshot_index : Map (Option Snapshot)

-- The state of `Service`: what is persisted, and the indexes.
pub record Service : Type 0 where
  pub data' : Persisted
  pub index : Indexes

-- The order in which `range` visits the keys of each map, which Go leaves open.
pub record Visits : Type 0 where
  pub plans : List String
  pub contracts : List String
  pub contexts : List String
  pub overrides : List String
  pub locks : List String
  pub conflicts : List String
  pub previews : List String
  pub sandboxes : List String
  pub snapshots : List String

module _ {ℓ} {A : Type ℓ} (id : A → String) where
  -- `for _, item := range items { index[item.ID] = item }`
  abbrev pub index_items : List A → Map (Option A) → Map (Option A)
  index_items [] index = index
  index_items (x ∷ xs) index = index_items xs (put index (id x) (some x))

  -- The loop over the lists of a map, in the order of the keys.
  abbrev pub index_map : Map (List A) → List String → Map (Option A) → Map (Option A)
  index_map m [] index = index
  index_map m (k ∷ ks) index = index_map m ks (index_items (m k) index)

  abbrev pub rebuild : Map (List A) → List String → Map (Option A)
  rebuild m keys = index_map m keys (λ _. none)

-- `rebuildIndexesLocked`, on the empty indexes that `resetStateLocked` leaves.
unfoldable pub rebuild_indexes : Visits → Persisted → Indexes
rebuild_indexes v p = record {
  plan_index = rebuild (λ x. x.id) p.plans v.plans;
  contract_index = rebuild (λ x. x.id) p.contracts v.contracts;
  context_index = rebuild (λ x. x.id) p.contexts v.contexts;
  override_index = rebuild (λ x. x.id) p.overrides v.overrides;
  lock_index = rebuild (λ x. x.id) p.locks v.locks;
  conflict_index = rebuild (λ x. x.id) p.conflicts v.conflicts;
  preview_index = rebuild (λ x. x.id) p.previews v.previews;
  sandbox_index = rebuild (λ x. x.id) p.sandboxes v.sandboxes;
  snapshot_index = rebuild (λ x. x.id) p.snapshots v.snapshots;
}

-- `capturePersistedStateLocked`
unfoldable pub capture : Service → Persisted
capture s = s.data'

-- `restorePersistedStateLocked`
unfoldable pub restore : Visits → Persisted → Service
restore v p = record { data' = p; index = rebuild_indexes v p }

-- The settings of `config.Config` that the modelled code reads. Prices are in millionths of a US
-- dollar for a million tokens, so that a number of tokens times a price is a cost in 10⁻¹²
-- dollars; a price or a budget of zero or less is 0 here.
pub record Config : Type 0 where
  pub default_agent : String
  pub sandbox_root : String
  pub runtime_provider : String
  pub token_prompt_price : ℕ
  pub token_output_price : ℕ
  pub token_budget_warn : ℕ
  pub token_budget_block : ℕ
  pub registry_default : Option String

-- `workspaceProvider`, as far as the run engine creates workspaces with it: `create_private`
-- gives the sandbox with what the provider sets in it, or `none` for an error.
pub record Workspace : Type 0 where
  pub name : String
  pub create_private : Sandbox → Task → Option Sandbox

-- What surrounds the service: its settings, its workspace provider, and the library functions
-- for checksums (SHA-256, the first four bytes in hexadecimal), times (RFC 3339), amounts (`%.6f`
-- dollars), numbers (`%d`), lower and upper case (`strings.ToLower`, `strings.ToUpper`), and the
-- first bytes of a text (`s[:n]`).
pub record World : Type 0 where
  pub config : Config
  pub workspace : Workspace
  pub checksum : String → String
  pub format_time : ℕ → String
  pub format_usd : ℕ → String
  pub decimal : ℕ → String
  pub to_lower : String → String
  pub to_upper : String → String
  pub first_bytes : ℕ → String → String

-- `s.m[k] = append(s.m[k], x)`
abbrev pub push {ℓ} : {A : Type ℓ} → Map (List A) → String → A → Map (List A)
push m k x = put m k (snoc (m k) x)

-- What `StartRuns`, `SaveTasks`, `CompleteRun` and `FailRun` of a repository answer.
pub data Stored : Type 0 where
  stored : Stored
  project_missing : Stored
  failed : String → Stored

-- `persistLocked`, given what `SaveState` answers.
unfoldable pub persist : Option String → Result (Unit {0})
persist none = ok tt
persist (some e) = err (internal_error "PERSISTENCE_FAILED" e)

-- The answer of a repository, as the handlers report it.
unfoldable pub store_result : Stored → Result (Unit {0})
store_result stored = ok tt
store_result project_missing = err (not_found_error "project not found")
store_result (failed e) = err (internal_error "PERSISTENCE_FAILED" e)
