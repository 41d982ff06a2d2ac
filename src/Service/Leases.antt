-- ===== src/Service/Leases.antt =====
-- internal/service/service.go: the leases of human overrides and code locks: who owns one, what
-- it covers, and how long it lasts.
use multi_agent_com.Base.{
  ℕ, ◌+◌, ◌-◌, ◌*◌, ◌%◌, ◌^◌, String, Bool, ◌||◌, List, [], ◌∷◌, trim, is_empty, ◌+++◌, not,
  byte_length, eqb, ltb, if◌then◌else◌,
}
use multi_agent_com.Base.Int.{ℤ, pos, negsuc}
use multi_agent_com.Service.State.{Result, ok, err, validation_error, guard, World}
use multi_agent_com.Domain.Records.{HumanOverride}

-- `hitlLeaseActive`
unfoldable pub lease_active : ℕ → ℕ → Bool
lease_active now expires_at = eqb expires_at 0 || ltb now expires_at

-- The first text that is not blank, trimmed.
abbrev pub first_named : List String → String
first_named [] = "human-operator"
first_named (c ∷ cs) = if is_empty (trim c) then first_named cs else trim c

-- `hitlOwner`, for the actor of the context.
unfoldable pub hitl_owner : String → String → String → String
hitl_owner actor explicit fallback =
    first_named (explicit ∷ actor ∷ fallback ∷ "human-operator" ∷ [])

-- `now.Add(time.Duration(seconds)*time.Second)`, where the product wraps in 64 bits with a sign. An
-- instant before 1970 is put at 1, since 0 is the zero time.
unfoldable pub add_seconds : ℕ → ℕ → ℕ
add_seconds now seconds =
    let d = (seconds * 1_000_000_000) % 2 ^ 64 in
    if ltb d (2 ^ 63) then now + d else if ltb (2 ^ 64 - d) now then now - (2 ^ 64 - d) else 1

-- `hitlExpiresAt`: an hour by default.
unfoldable pub hitl_expires_at : ℕ → ℤ → Result ℕ
unfolding add_seconds
hitl_expires_at now (negsuc n) = err (validation_error "ttlSeconds must be non-negative")
hitl_expires_at now (pos ttl) = ok (add_seconds now (if eqb ttl 0 then 3600 else ttl))

-- `hitlOverrideOwner`
unfoldable pub hitl_override_owner : HumanOverride → String
hitl_override_owner o = first_named (o.owner ∷ o.operator ∷ [])

-- `overrideScope`
unfoldable pub override_scope : World → String → String → String
override_scope w task_id lock_scope =
    let scope = trim lock_scope in
    "task:" +++ (trim task_id +++ (":" +++ w.to_lower (if is_empty scope then "TASK" else scope)))

-- A maximum length, and its decimal digits.
pub record Limit : Type 0 where
  pub bytes : ℕ
  pub digits : String

abbrev pub limit_256 : Limit
limit_256 = record { bytes = 256; digits = "256" }

-- `validateLength`
unfoldable pub validate_length : String → String → Limit → Result (Unit {0})
validate_length value field limit = guard (not (ltb limit.bytes (byte_length value))) (
    validation_error
      (field +++ (" exceeds maximum length of " +++ (limit.digits +++ " characters"))))
