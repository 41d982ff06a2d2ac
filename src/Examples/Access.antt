-- ===== src/Examples/Access.antt =====
-- Tests and examples for tokens, roles, advisory locks and idempotency keys.
use multi_agent_com.Base.{
  ◌≢◌, ◌<◌, ◌^◌, String, ◌≡◌, refl, ap, ◌↔◌, ◌⊎◌, true, false, Option, none, some, [], ◌∷◌, Map,
  put, IsDistinct, distinct_by, All, trim, trim_left, trim_right, is_space, put_self, arith,
}
use multi_agent_com.Service.State.{ok, err, plain}
use multi_agent_com.Service.Concurrency.{
  project_seed, task_seed, advisory_lock_id, lock_words, IdempotencyKey, key_text, parse_key,
  KeyTable, check_idempotency_key, check_idempotency, after_check, record_idempotency,
}
use multi_agent_com.Service.Concurrency.Keys.{
  IsProper, parse_key_iff, IsTable, check_idempotency_key_once,
}
use multi_agent_com.Service.Concurrency.Apart.{lock_words-Apart}
use multi_agent_com.Auth.{
  TokenRecord, Principal, Authenticator, AuthWorld, normalize_roles, has_any_role, record_principal,
  authenticate, new_authenticator, add_records, normalize_hash,
}
use multi_agent_com.Auth.Accepted.{Grants, Refuses, authenticate-Grants}
use multi_agent_com.Auth.Roles.{
  IsLowering, shares_role, record_principal-has_any_role, new_authenticator-IsClean, IsClean,
}

lock_words-Apart_example :
    let words = lock_words (advisory_lock_id task_seed "project-1") in
    (words.0 < 2 ^ 32)
    × (words.1 < 2 ^ 32)
    × (lock_words (advisory_lock_id project_seed "project-1")
        ≢ lock_words (advisory_lock_id task_seed "project-1"))
    × (words ≢ lock_words (advisory_lock_id task_seed "project-2"))
lock_words-Apart_example =
    lock_words-Apart "project-" "" "1" "2" task_seed (omega arith) (λ e. omega arith)

abbrev start_key : IdempotencyKey
start_key = record { project_id = "proj"; operation = "start"; key = "a:b" }

parse_key_iff_example :
    (parse_key "proj:start:a:b" ≡ ok start_key)
    ↔ ((key_text start_key ≡ "proj:start:a:b") × IsProper start_key)
parse_key_iff_example = parse_key_iff "proj:start:a:b" start_key

abbrev row : Option (Unit {0}) → Option String
row none = some "sql: no rows in result set"
row (some _) = none

-- A table in memory.
abbrev memory_table : KeyTable (Map (Option (Unit {0})))
memory_table = record {
  create = λ d. (d, none);
  find_key = λ d k. row (d k);
  store_key = λ d k. (put d k (some tt), none);
}

memory_table-IsTable : IsTable memory_table
memory_table-IsTable = record {
  store_found = λ d k e. ap row (put_self d k (some tt));
  create_keeps = λ d k e. e;
}

abbrev no_keys : Map (Option (Unit {0}))
no_keys _ = none

abbrev once_started : Map (Option (Unit {0}))
once_started = put no_keys "proj:start:a:b" (some tt)

first_time : check_idempotency_key (some memory_table) start_key no_keys ≡ (once_started, ok false)
unfolding check_idempotency_key check_idempotency after_check record_idempotency key_text
first_time = refl

check_idempotency_key_once_example :
    check_idempotency_key (some memory_table) start_key once_started ≡ (once_started, ok true)
check_idempotency_key_once_example =
    check_idempotency_key_once memory_table memory_table-IsTable start_key no_keys once_started
      first_time refl

abbrev ann_record : TokenRecord
ann_record = record {
  token_hash = "sha256:ab";
  actor = "ann";
  roles = "Admin" ∷ [];
  project_id = "";
  disabled = false;
  expires_at = 10;
}

-- Texts are in lower case, and their own hashes; a payload is one record.
abbrev demo_auth : AuthWorld
demo_auth = record {
  sha256_hex = λ text. text;
  to_lower = λ text. text;
  read_file = λ path. err (plain "no such file");
  decode = λ payload. ok (ann_record ∷ []);
}

abbrev ann_only : Authenticator
ann_only = record { fallback_token = "secret"; records = ann_record ∷ [] }

authenticate-Grants_example :
    ((p : Principal) × ((authenticate demo_auth ann_only "ab" 5 ≡ some p)
        × Grants demo_auth ann_only "ab" 5 p))
    ⊎ ((authenticate demo_auth ann_only "ab" 5 ≡ none) × Refuses demo_auth ann_only "ab" 5)
authenticate-Grants_example = authenticate-Grants demo_auth ann_only "ab" 5

demo_auth-IsLowering : IsLowering demo_auth
demo_auth-IsLowering = record { lower_twice = λ s. refl; lower_trimmed = λ s. refl }

record_principal-has_any_role_example :
    (has_any_role demo_auth (record_principal demo_auth ann_record) ("owner" ∷ [])
      ≡ shares_role demo_auth ("Admin" ∷ []) ("admin" ∷ "owner" ∷ []))
    × IsDistinct (record_principal demo_auth ann_record).roles
record_principal-has_any_role_example =
    record_principal-has_any_role demo_auth ann_record ("owner" ∷ []) demo_auth-IsLowering

-- What `New` makes of the record.
abbrev ann_clean : Authenticator
ann_clean = record {
  fallback_token = "secret";
  records = record ann_record { token_hash = "ab" } ∷ [];
}

ann_loaded : new_authenticator demo_auth " secret" "[...]" "" ≡ ok ann_clean
unfolding new_authenticator add_records normalize_hash normalize_roles distinct_by trim trim_left
    trim_right is_space
ann_loaded = refl

new_authenticator-IsClean_example :
    (ann_clean.fallback_token ≡ trim " secret") × All IsClean ann_clean.records
new_authenticator-IsClean_example =
    new_authenticator-IsClean demo_auth " secret" "[...]" "" ann_clean ann_loaded
