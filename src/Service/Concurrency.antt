-- ===== src/Service/Concurrency.antt =====
-- internal/service/concurrency.go: the IDs of advisory locks, and the idempotency keys with their
-- table. The database is a parameter.
pub mod Keys
pub mod Apart
use Prim.Native.Char.{Char, code}
use Prim.Native.Nat.{bit_xor}
use multi_agent_com.Base.{
  ℕ, ◌*◌, ◌/◌, ◌%◌, ◌^◌, String, ◌+++◌, Bool, true, false, ◌||◌, List, [], ◌∷◌, Option, none, some,
  is_empty, has_text, split_n, if◌then◌else◌,
}
use multi_agent_com.Service.State.{Result, ok, err, Error, plain, error_text}

abbrev pub project_seed : ℕ
project_seed = 54321

abbrev pub task_seed : ℕ
task_seed = 12345

-- The loop of `advisoryLockID`: `h ^= uint64(c); h *= 1099511628211`.
unfoldable pub hash_from : ℕ → String → ℕ
hash_from h String.[] = h
hash_from h (String.◌∷◌ c s) = hash_from ((bit_xor h (code c) * 1_099_511_628_211) % 2 ^ 64) s

-- `advisoryLockID`
unfoldable pub advisory_lock_id : ℕ → String → ℕ
advisory_lock_id seed id = hash_from seed id

-- The two numbers that a lock statement takes: `lockID>>32` and `lockID&0xFFFFFFFF`.
unfoldable pub lock_words : ℕ → ℕ × ℕ
lock_words id = (id / 2 ^ 32, id % 2 ^ 32)

-- The statements `pg_advisory_lock`, `pg_advisory_unlock` and `pg_try_advisory_lock` of the
-- database, on two numbers; each may fail with a text.
pub record LockStatements (D : Type 0) : Type 0 where
  pub lock : D → ℕ × ℕ → D × Option String
  pub unlock : D → ℕ × ℕ → D × Option String
  pub try_lock : D → ℕ × ℕ → D × Result Bool

-- `fmt.Errorf` around the text of a failed statement.
abbrev pub lock_error : String → String → Option String → Option Error
lock_error verb id none = none
lock_error verb id (some e) = some (plain (verb +++ (id +++ (": " +++ e))))

abbrev pub try_answer : String → Result Bool → Result Bool
unfolding error_text
try_answer id (ok acquired) = ok acquired
try_answer id (err e) =
    err (plain ("try project advisory lock for " +++ (id +++ (": " +++ error_text e))))

module _ {D : Type 0} where
  -- `LockProject`; without a database it is a no-op.
  unfoldable pub lock_project : Option (LockStatements D) → String → D → D × Option Error
  unfolding lock_words advisory_lock_id
  lock_project none id d = (d, none)
  lock_project (some db) id d =
      let (d', e) = db.lock d (lock_words (advisory_lock_id project_seed id)) in
      (d', lock_error "acquire project advisory lock for " id e)

  -- `UnlockProject`
  unfoldable pub unlock_project : Option (LockStatements D) → String → D → D × Option Error
  unfolding lock_words advisory_lock_id
  unlock_project none id d = (d, none)
  unlock_project (some db) id d =
      let (d', e) = db.unlock d (lock_words (advisory_lock_id project_seed id)) in
      (d', lock_error "release project advisory lock for " id e)

  -- `TryLockProject`
  unfoldable pub try_lock_project : Option (LockStatements D) → String → D → D × Result Bool
  unfolding lock_words advisory_lock_id
  try_lock_project none id d = (d, ok true)
  try_lock_project (some db) id d =
      let (d', answer) = db.try_lock d (lock_words (advisory_lock_id project_seed id)) in
      (d', try_answer id answer)

  -- `LockTask`
  unfoldable pub lock_task : Option (LockStatements D) → String → D → D × Option Error
  unfolding lock_words advisory_lock_id
  lock_task none id d = (d, none)
  lock_task (some db) id d =
      let (d', e) = db.lock d (lock_words (advisory_lock_id task_seed id)) in
      (d', lock_error "acquire task advisory lock for " id e)

  -- `UnlockTask`
  unfoldable pub unlock_task : Option (LockStatements D) → String → D → D × Option Error
  unfolding lock_words advisory_lock_id
  unlock_task none id d = (d, none)
  unlock_task (some db) id d =
      let (d', e) = db.unlock d (lock_words (advisory_lock_id task_seed id)) in
      (d', lock_error "release task advisory lock for " id e)

pub record IdempotencyKey : Type 0 where
  pub project_id : String
  pub operation : String
  pub key : String

-- `IdempotencyKey.String`
unfoldable pub key_text : IdempotencyKey → String
key_text k = k.project_id +++ (":" +++ (k.operation +++ (":" +++ k.key)))

abbrev pub colon : Char
colon = ":"

abbrev pub invalid_key : Error
invalid_key = plain "invalid idempotency key format, expected projectID:operation:key"

-- The parts that `ParseIdempotencyKey` has cut.
abbrev pub key_of : List String → Result IdempotencyKey
key_of (p ∷ (o ∷ (k ∷ []))) =
    if is_empty p || is_empty o || is_empty k
    then err invalid_key
    else ok (record { project_id = p; operation = o; key = k })
key_of _ = err invalid_key

-- `ParseIdempotencyKey`
unfoldable pub parse_key : String → Result IdempotencyKey
parse_key header = key_of (split_n 3 (code colon) header)

-- The table of keys in the database: creating it, where it is missing, looking a key up, and
-- storing one. Each answers with the text of an error, or `none`.
pub record KeyTable (D : Type 0) : Type 0 where
  pub create : D → D × Option String
  pub find_key : D → String → Option String
  pub store_key : D → String → D × Option String

-- What `CheckIdempotency` makes of the row that it looks up.
abbrev pub row_found : Option String → Result Bool
row_found none = ok true
row_found (some e) = if has_text e "no rows" then ok false else err (plain e)

module _ {D : Type 0} where
  -- `CheckIdempotency`; without a database it is a no-op.
  unfoldable pub check_idempotency : Option (KeyTable D) → String → D → D × Result Bool
  check_idempotency none key d = (d, ok false)
  check_idempotency (some table) key d =
      let created = table.create d in
      elim created.1 [
        | some e ↦ (created.0, err (plain e))
        | none ↦ (created.0, row_found (table.find_key created.0 key))
      ]

  -- `RecordIdempotency`
  unfoldable pub record_idempotency : Option (KeyTable D) → String → D → D × Option String
  record_idempotency none key d = (d, none)
  record_idempotency (some table) key d = table.store_key d key

  abbrev pub recorded : D × Option String → D × Result Bool
  recorded (d, none) = (d, ok false)
  recorded (d, some e) = (d, err (plain e))

  -- What `checkIdempotencyKey` does after the check.
  unfoldable pub after_check : Option (KeyTable D) → String → D × Result Bool → D × Result Bool
  unfolding record_idempotency
  after_check table key (d, err e) = (d, err e)
  after_check table key (d, ok true) = (d, ok true)
  after_check table key (d, ok false) = recorded (record_idempotency table key d)

  -- `checkIdempotencyKey`; a service without a guard is one without a database.
  unfoldable pub check_idempotency_key : Option (KeyTable D) → IdempotencyKey → D → D × Result Bool
  unfolding check_idempotency after_check key_text
  check_idempotency_key table key d =
      after_check table (key_text key) (check_idempotency table (key_text key) d)
