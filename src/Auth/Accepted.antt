-- ===== src/Auth/Accepted.antt =====
-- internal/auth/auth.go: whom `Authenticate` lets in, and the records that `New` leaves.
use multi_agent_com.Base.{
  Mem, find_first-Mem, All-map, ◌↔◌, eqb, ltb, ◌&&◌, ◌||◌, eq_refl, byte_length, subst,
  if◌then◌else◌, ℕ, ◌<◌, String, ◌==◌, ◌≡◌, refl, sym, ◌⊎◌, inl, inr, Bool, true, false, not, none,
  some, trim, is_empty, find_first, find_first-none, All, Bool-cases, Option-cases, eqb_iff, eq_iff,
  arith,
}
use multi_agent_com.Auth.{
  TokenRecord, Principal, Authenticator, AuthWorld, normalize_hash, hash_equal, accepts,
  record_principal, admin_principal, token_equal, authenticate,
}

is_empty_iff : (s : String) → is_empty s ≡ true → s ≡ ""
is_empty_iff String.[] h = refl
is_empty_iff (String.◌∷◌ c s) h = absurd (cc h)

-- A record that a token with this hash may use: enabled, not expired, with this hash.
pub record IsUsable (w : AuthWorld) (hash : String) (now : ℕ) (r : TokenRecord) : Type 0 where
  pub enabled : r.disabled ≡ false
  pub hashed : is_empty (trim r.token_hash) ≡ false
  pub alive : (r.expires_at ≡ 0) ⊎ (now < r.expires_at)
  pub matching : normalize_hash w hash ≡ normalize_hash w r.token_hash
  pub present : is_empty (normalize_hash w hash) ≡ false

no_bytes : (s : String) → eqb (byte_length s) 0 ≡ is_empty s
unfolding byte_length
no_bytes String.[] = refl
no_bytes (String.◌∷◌ c s) = ground arith

either_false : (p q : Bool) → (p || q) ≡ false → (p ≡ false) × (q ≡ false)
either_false true q h = absurd (cc h)
either_false false q h = (refl, h)

passed : (p q : Bool) → (if p then false else q) ≡ true → (p ≡ false) × (q ≡ true)
passed true q h = absurd (cc h)
passed false q h = (refl, h)

same_text :
    (x y : String)
    → ((if not (eqb (byte_length x) (byte_length y)) || is_empty x then false else x == y) ≡ true)
      ↔ ((x ≡ y) × (is_empty x ≡ false))
same_text x y = (
  λ h. let (neither, same) = passed _ _ h in ((eq_iff x y).0 same, (either_false _ _ neither).1),
  λ h. rw (h.1, sym h.0, eq_refl x, (eqb_iff (byte_length x) (byte_length x)).1 refl) refl,
)

hash_equal_iff :
    (w : AuthWorld) (a b : String)
    → (hash_equal w a b ≡ true)
      ↔ ((normalize_hash w a ≡ normalize_hash w b) × (is_empty (normalize_hash w a) ≡ false))
unfolding hash_equal
hash_equal_iff w a b =
    subst
      (λ z.
        ((if not (eqb (byte_length (normalize_hash w a)) (byte_length (normalize_hash w b))) || z
            then false
            else normalize_hash w a == normalize_hash w b)
          ≡ true)
        ↔ ((normalize_hash w a ≡ normalize_hash w b) × (is_empty (normalize_hash w a) ≡ false)))
      (sym (no_bytes (normalize_hash w a))) (same_text (normalize_hash w a) (normalize_hash w b))

-- The loop's tests, on the values that they look at.
abbrev gate : Bool → Bool → ℕ → ℕ → Bool → Bool
gate off blank expires now same =
    if off || blank
    then false
    else if not (eqb expires 0) && not (ltb now expires)
    then false
    else same

gate_iff :
    (off blank : Bool) (expires now : ℕ) (same : Bool)
    → (gate off blank expires now same ≡ true)
      ↔ ((off ≡ false) × ((blank ≡ false) × (((expires ≡ 0) ⊎ (now < expires)) × (same ≡ true))))
gate_iff true blank expires now same = ground arith
gate_iff false true expires now same = ground arith
gate_iff false false expires now true = ground arith
gate_iff false false expires now false = ground arith

accepts_iff :
    (w : AuthWorld) (hash : String) (now : ℕ) (r : TokenRecord)
    → (accepts w hash now r ≡ true) ↔ IsUsable w hash now r
unfolding accepts
accepts_iff w hash now r =
    let gates = gate_iff r.disabled (is_empty (trim r.token_hash)) r.expires_at now _ in
    let hashes = hash_equal_iff w hash r.token_hash in
    (
      λ h.
          let (enabled, (hashed, (alive, same))) = gates.0 h in
          record {
            enabled = enabled;
            hashed = hashed;
            alive = alive;
            matching = (hashes.0 same).0;
            present = (hashes.0 same).1;
          },
      λ u. gates.1 (u.enabled, (u.hashed, (u.alive, hashes.1 (u.matching, u.present)))),
    )

-- The fallback token was given.
abbrev pub IsFallback : Authenticator → String → Type 0
IsFallback a token = (is_empty (trim a.fallback_token) ≡ false) × (trim token ≡ a.fallback_token)

token_equal_iff :
    (x y : String) → (token_equal x y ≡ true) ↔ ((is_empty (trim y) ≡ false) × (x ≡ y))
unfolding token_equal
token_equal_iff x y = (
  λ h. let (named, same) = passed _ _ h in (named, (eq_iff x y).0 same),
  λ h. rw (h.0, (eq_iff x y).1 h.1) refl,
)

-- Whom a token stands for at a time.
pub data Grants (w : AuthWorld) (a : Authenticator) (token : String) (now : ℕ)
    : Principal → Type 0 where
  by_fallback : IsFallback a token → Grants w a token now admin_principal
  by_record :
      (r : TokenRecord)
      → Mem r a.records
      → IsUsable w (w.sha256_hex (trim token)) now r
      → Grants w a token now (record_principal w r)

-- No token was given, or it is not the fallback token and no record is usable with it.
abbrev pub Refuses : AuthWorld → Authenticator → String → ℕ → Type 0
Refuses w a token now =
    (trim token ≡ "")
    ⊎ ((¬ IsFallback a token) × All (λ r. ¬ IsUsable w (w.sha256_hex (trim token)) now r) a.records)

by_records :
    (w : AuthWorld) (a : Authenticator) (token : String) (now : ℕ)
    → is_empty (trim token) ≡ false
    → token_equal (trim token) a.fallback_token ≡ false
    → ((p : Principal) × ((authenticate w a token now ≡ some p) × Grants w a token now p))
      ⊎ ((authenticate w a token now ≡ none) × Refuses w a token now)
unfolding authenticate
by_records w a token now given other =
    let hash = w.sha256_hex (trim token) in
    elim (Option-cases (find_first (accepts w hash now) a.records)) [
      | inr (r, found) ↦
          let (passes, member) = find_first-Mem (accepts w hash now) a.records r found in
          inl (
            record_principal w r,
            (
              rw (authenticate, given, other, found) refl,
              by_record r member ((accepts_iff w hash now r).0 passes),
            ),
          )
      | inl missing ↦ inr (
        rw (authenticate, given, other, missing) refl,
        inr (
          λ f. cc ((token_equal_iff (trim token) a.fallback_token).1 f, other),
          All-map _ _ (λ r no u. cc ((accepts_iff w hash now r).1 u, no)) a.records
              (find_first-none (accepts w hash now) a.records missing),
        ),
      )
    ]

-- `Authenticate` lets a token in only as the fallback token, with the role of an administrator, or
-- by a record of the list that is enabled, has not expired and has the hash of the token, with that
-- record's principal. It refuses only a blank token, or one that is not the fallback token and for
-- which no record of the list is usable.
pub authenticate-Grants :
    (w : AuthWorld) (a : Authenticator) (token : String) (now : ℕ)
    → ((p : Principal) × ((authenticate w a token now ≡ some p) × Grants w a token now p))
      ⊎ ((authenticate w a token now ≡ none) × Refuses w a token now)
unfolding authenticate
authenticate-Grants w a token now = elim (Bool-cases (is_empty (trim token))) [
  | inl blank ↦ inr (rw (authenticate, blank) refl, inl (is_empty_iff _ blank))
  | inr given ↦ elim (Bool-cases (token_equal (trim token) a.fallback_token)) [
    | inl same ↦ inl (
      admin_principal,
      (
        rw (authenticate, given, same) refl,
        by_fallback ((token_equal_iff (trim token) a.fallback_token).0 same),
      ),
    )
    | inr other ↦ by_records w a token now given other
  ]
]
