-- ===== src/Auth/Roles.antt =====
-- internal/auth/auth.go: what `HasAnyRole` says of a token record's roles, and the records that `New` leaves.
use multi_agent_com.Base.{
  String, ◌≡◌, refl, ◌∙◌, subst, inl, inr, false, not, ◌&&◌, ◌||◌, Bool, List, [], ◌∷◌, map,
  is_empty, trim, trim_twice, distinct_by, ap, contains, IsDistinct-contains, IsDistinct,
  Bool-cases, All, All-append,
}
use multi_agent_com.Service.State.{ok, Result-cases, ok-injective}
use multi_agent_com.Auth.{
  TokenRecord, Authenticator, AuthWorld, clean_role, normalize_roles, role_in, some_role, has_role,
  has_any_role, record_principal, normalize_hash, normalize_records, add_records, from_file,
  from_json, new_authenticator,
}

-- What the code relies on in `strings.ToLower`: lower case stays, and spaces are no letters.
pub record IsLowering (w : AuthWorld) : Type 0 where
  pub lower_twice : (s : String) → w.to_lower (w.to_lower s) ≡ w.to_lower s
  pub lower_trimmed : (s : String) → trim (w.to_lower s) ≡ w.to_lower (trim s)

-- The texts as roles are compared: without the spaces around them and in lower case.
abbrev pub folded : AuthWorld → String → String
folded w s = w.to_lower (trim s)

folded_twice : (w : AuthWorld) → IsLowering w → (s : String) → folded w (folded w s) ≡ folded w s
folded_twice w h s =
    ap w.to_lower (h.lower_trimmed (trim s) ∙ ap w.to_lower (trim_twice s)) ∙ h.lower_twice (trim s)

module _ (w : AuthWorld) where
  role_in-contains :
      (vs : List String) (r : String) → role_in w vs r ≡ contains (map (folded w) vs) r
  role_in-contains [] r = refl
  role_in-contains (v ∷ vs) r = rw (role_in-contains vs r) refl

  -- Folding changes no role that `normalizeRoles` has folded.
  normalized-folded :
      (vs seen : List String)
      → IsLowering w
      → map (folded w) (distinct_by (clean_role w) seen vs) ≡ distinct_by (clean_role w) seen vs
  unfolding distinct_by
  normalized-folded [] seen h = refl
  normalized-folded (v ∷ vs) seen h =
      elim (Bool-cases (is_empty (folded w v) || contains seen (folded w v))) [
        | inl skipped ↦ rw skipped (normalized-folded vs seen h)
        | inr kept ↦
            rw kept (rw (folded_twice w h v, normalized-folded vs (folded w v ∷ seen) h) refl)
      ]

  normalized-has_role :
      (vs : List String) (role : String)
      → IsLowering w
      → has_role w (normalize_roles w vs) role
        ≡ (not (is_empty (folded w role)) && contains (map (folded w) vs) (folded w role))
  unfolding has_role normalize_roles
  normalized-has_role vs role h =
      role_in-contains (normalize_roles w vs) (folded w role)
      ∙ ap (λ rs. contains rs (folded w role)) (normalized-folded vs [] h)
      ∙ (IsDistinct-contains (clean_role w) vs).0 (folded w role)

-- One of the asked roles is not blank and is, folded, one of the given.
abbrev pub shares_role : AuthWorld → List String → List String → Bool
shares_role w given [] = false
shares_role w given (q ∷ qs) =
    (not (is_empty (folded w q)) && contains (map (folded w) given) (folded w q))
    || shares_role w given qs

-- The principal that a token record stands for passes `HasAnyRole` exactly where the record's own
-- list has "admin" or one of the roles asked for, compared without the spaces around them and
-- without case, a blank one never; and its roles have none twice.
pub record_principal-has_any_role :
    (w : AuthWorld) (r : TokenRecord) (asked : List String)
    → IsLowering w
    → (has_any_role w (record_principal w r) asked ≡ shares_role w r.roles ("admin" ∷ asked))
      × IsDistinct (record_principal w r).roles
unfolding has_any_role record_principal normalize_roles
record_principal-has_any_role w r asked h = (
  ap (λ b. b || some_role w (normalize_roles w r.roles) asked)
        (normalized-has_role w r.roles "admin" h)
      ∙ ap
          (λ b.
            (not (is_empty (folded w "admin"))
              && contains (map (folded w) r.roles) (folded w "admin"))
            || b)
          (others asked),
  (IsDistinct-contains (clean_role w) r.roles).1,
)
  where
    others :
        (qs : List String) → some_role w (normalize_roles w r.roles) qs ≡ shares_role w r.roles qs
    others [] = refl
    others (q ∷ qs) = rw (normalized-has_role w r.roles q h, others qs) refl

-- A record as `New` leaves it: it has a hash, and no role twice.
abbrev pub IsClean : TokenRecord → Type 0
IsClean r = (is_empty r.token_hash ≡ false) × IsDistinct r.roles

normalize_records-IsClean :
    (w : AuthWorld) (rs done : List TokenRecord)
    → normalize_records w rs ≡ ok done
    → All IsClean done
unfolding normalize_roles
normalize_records-IsClean w [] done e = subst (All IsClean) (ok-injective e) tt
normalize_records-IsClean w (r ∷ rs) done e =
    elim (Bool-cases (is_empty (normalize_hash w r.token_hash))) [
      | inl missing ↦ absurd (cc (rw missing at e))
      | inr hashed ↦ elim (Result-cases (normalize_records w rs)) [
        | inr (f, failed) ↦ absurd (cc (rw (hashed, failed) at e))
        | inl (later, good) ↦ subst (All IsClean) (ok-injective (rw (hashed, good) at e)) (
          (hashed, (IsDistinct-contains (clean_role w) r.roles).1),
          normalize_records-IsClean w rs later good,
        )
      ]
    ]

-- What a step of `New` keeps.
abbrev Keeps : Authenticator → Authenticator → Type 0
Keeps a b = (b.fallback_token ≡ a.fallback_token) × All IsClean b.records

add_records-Keeps :
    (w : AuthWorld) (a b : Authenticator) (payload : String)
    → All IsClean a.records
    → add_records w a payload ≡ ok b
    → Keeps a b
unfolding add_records
add_records-Keeps w a b payload h e = elim (Result-cases (w.decode payload)) [
  | inr (f, failed) ↦ absurd (cc (rw (add_records, failed) at e))
  | inl (decoded, read) ↦ elim (Result-cases (normalize_records w decoded)) [
    | inr (f, failed) ↦ absurd (cc (rw (add_records, read, failed) at e))
    | inl (rs, good) ↦
        subst (Keeps a) (ok-injective (rw (add_records, read, good) at e))
          (refl, All-append IsClean a.records rs h (normalize_records-IsClean w decoded rs good))
  ]
]

from_file-Keeps :
    (w : AuthWorld) (file : String) (a b : Authenticator)
    → All IsClean a.records
    → from_file w file a ≡ ok b
    → Keeps a b
from_file-Keeps w file a b h e = elim (Bool-cases (is_empty (trim file))) [
  | inl unnamed ↦ subst (Keeps a) (ok-injective (rw unnamed at e)) (refl, h)
  | inr named ↦ elim (Result-cases (w.read_file (trim file))) [
    | inr (f, failed) ↦ absurd (cc (rw (named, failed) at e))
    | inl (payload, read) ↦ add_records-Keeps w a b payload h (rw (named, read) at e)
  ]
]

from_json-Keeps :
    (w : AuthWorld) (json : String) (a b : Authenticator)
    → All IsClean a.records
    → from_json w json a ≡ ok b
    → Keeps a b
from_json-Keeps w json a b h e = elim (Bool-cases (is_empty (trim json))) [
  | inl unnamed ↦ subst (Keeps a) (ok-injective (rw unnamed at e)) (refl, h)
  | inr named ↦ add_records-Keeps w a b json h (rw named at e)
]

-- An authenticator that `New` makes has the trimmed fallback token, and each of its records has a
-- hash and no role twice.
pub new_authenticator-IsClean :
    (w : AuthWorld) (fallback_token tokens_json tokens_file : String) (a : Authenticator)
    → new_authenticator w fallback_token tokens_json tokens_file ≡ ok a
    → (a.fallback_token ≡ trim fallback_token) × All IsClean a.records
unfolding new_authenticator
new_authenticator-IsClean w token json file a e =
    let fresh : Authenticator = record { fallback_token = trim token; records = [] } in
    elim (Result-cases (from_file w file fresh)) [
      | inr (f, failed) ↦ absurd (cc (rw (new_authenticator, failed) at e))
      | inl (b, read) ↦
          let (first, clean) = from_file-Keeps w file fresh b tt read in
          let (second, all) =
            from_json-Keeps w json b a clean (rw (new_authenticator, read) at e) in
          (second ∙ first, all)
    ]
