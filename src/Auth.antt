-- ===== src/Auth.antt =====
-- internal/auth/auth.go: API tokens, who they stand for, and the roles of a principal. A time is a
-- number of nanoseconds, with 0 for the zero time.
pub mod Accepted
pub mod Roles
use multi_agent_com.Base.{
  ℕ, String, ◌==◌, Bool, true, false, not, ◌&&◌, ◌||◌, Option, none, some, List, [], ◌∷◌, ◌++◌,
  trim, trim_prefix, is_empty, byte_length, eqb, ltb, distinct_by, find_first, if◌then◌else◌,
}
use multi_agent_com.Service.State.{Result, ok, err, Error, plain, ◌>>=◌}

pub record TokenRecord : Type 0 where
  pub token_hash : String
  pub actor : String
  pub roles : List String
  pub project_id : String
  pub disabled : Bool
  pub expires_at : ℕ

pub record Principal : Type 0 where
  pub actor : String
  pub roles : List String
  pub project_id : String

pub record Authenticator : Type 0 where
  pub fallback_token : String
  pub records : List TokenRecord

-- The library functions: SHA-256 in hexadecimal, `strings.ToLower`, the reading of a file and
-- the decoding of JSON.
pub record AuthWorld : Type 0 where
  pub sha256_hex : String → String
  pub to_lower : String → String
  pub read_file : String → Result String
  pub decode : String → Result (List TokenRecord)

module _ (w : AuthWorld) where
  -- `normalizeHash`
  unfoldable pub normalize_hash : String → String
  normalize_hash value = w.to_lower (trim_prefix (trim value) "sha256:")

  abbrev pub clean_role : String → String
  clean_role value = w.to_lower (trim value)

  -- `normalizeRoles`
  unfoldable pub normalize_roles : List String → List String
  unfolding distinct_by
  normalize_roles values = distinct_by clean_role [] values

  abbrev pub role_in : List String → String → Bool
  role_in [] role = false
  role_in (item ∷ items) role = clean_role item == role || role_in items role

  -- `hasRole`
  unfoldable pub has_role : List String → String → Bool
  has_role roles role = role_in roles (clean_role role)

  abbrev pub some_role : List String → List String → Bool
  some_role roles [] = false
  some_role roles (r ∷ rs) = has_role roles r || some_role roles rs

  -- `HasAnyRole`
  unfoldable pub has_any_role : Principal → List String → Bool
  unfolding has_role
  has_any_role p roles = has_role p.roles "admin" || some_role p.roles roles

  -- `constantTimeHashEqual`
  unfoldable pub hash_equal : String → String → Bool
  unfolding normalize_hash
  hash_equal a b =
      let x = normalize_hash a in
      let y = normalize_hash b in
      if not (eqb (byte_length x) (byte_length y)) || eqb (byte_length x) 0 then false else x == y

  -- The three tests in the loop of `Authenticate`.
  unfoldable pub accepts : String → ℕ → TokenRecord → Bool
  unfolding hash_equal
  accepts hash now r =
      if r.disabled || is_empty (trim r.token_hash)
      then false
      else if not (eqb r.expires_at 0) && not (ltb now r.expires_at)
      then false
      else hash_equal hash r.token_hash

  -- The principal that a record stands for.
  unfoldable pub record_principal : TokenRecord → Principal
  unfolding normalize_roles
  record_principal r = record {
    actor = let actor = trim r.actor in if is_empty actor then "api-token" else actor;
    roles = normalize_roles r.roles;
    project_id = trim r.project_id;
  }

  -- One round of the loop of `addRecords`.
  abbrev pub normalized : TokenRecord → TokenRecord
  normalized r = record r {
    token_hash = normalize_hash r.token_hash;
    roles = normalize_roles r.roles;
  }

  abbrev normalize_records : List TokenRecord → Result (List TokenRecord)
  normalize_records [] = ok []
  normalize_records (r ∷ rs) =
      let rest = normalize_records rs in
      if is_empty (normalize_hash r.token_hash)
      then err (plain "auth token record missing tokenHash")
      else rest >>= λ done. ok (normalized r ∷ done)

  -- `addRecords`
  unfoldable pub add_records : Authenticator → String → Result Authenticator
  add_records a payload = w.decode payload >>= λ decoded.
      normalize_records decoded >>= λ records. ok (record a { records = a.records ++ records })

-- The principal of the fallback token.
abbrev pub admin_principal : Principal
admin_principal = record { actor = "api-token"; roles = "admin" ∷ []; project_id = "" }

-- `constantTimeStringEqual`
unfoldable pub token_equal : String → String → Bool
token_equal a b = if is_empty (trim b) then false else a == b

-- `Required`
unfoldable pub required : Authenticator → Bool
required a =
    not (is_empty (trim a.fallback_token)) || (elim a.records [ [] ↦ false | _ ∷ _ ↦ true ])

-- `AllowsProject`
unfoldable pub allows_project : Principal → String → Bool
allows_project p project_id =
    is_empty (trim p.project_id) || is_empty (trim project_id) || (p.project_id == project_id)

-- `Authenticate`
unfoldable pub authenticate : AuthWorld → Authenticator → String → ℕ → Option Principal
unfolding token_equal accepts record_principal
authenticate w a token now =
    let trimmed = trim token in
    if is_empty trimmed
    then none
    else if token_equal trimmed a.fallback_token
    then some admin_principal
    else (elim (find_first (accepts w (w.sha256_hex trimmed) now) a.records) [
      | none ↦ none
      | some r ↦ some (record_principal w r)
    ])

-- The token file, where one is named.
abbrev from_file : AuthWorld → String → Authenticator → Result Authenticator
from_file w tokens_file a =
    if is_empty (trim tokens_file)
    then ok a
    else w.read_file (trim tokens_file) >>= λ payload. add_records w a payload

abbrev from_json : AuthWorld → String → Authenticator → Result Authenticator
from_json w tokens_json a =
    if is_empty (trim tokens_json) then ok a else add_records w a tokens_json

-- `New`
unfoldable pub new_authenticator : AuthWorld → String → String → String → Result Authenticator
unfolding add_records
new_authenticator w fallback_token tokens_json tokens_file =
    from_file w tokens_file (record { fallback_token = trim fallback_token; records = [] })
    >>= from_json w tokens_json
