-- ===== src/Service/Locks/Checks.antt =====
-- internal/service/service.go: what the checks of `ApplyCodeLock` let through.
use multi_agent_com.Base.{
  ℕ, String, ◌≡◌, refl, subst, Bool, true, false, not, ◌||◌, has_text, starts_with, trim, is_empty,
}
use multi_agent_com.Domain.Records.{Project, CodeLock}
use multi_agent_com.Service.State.{
  Persisted, World, Result, ok, err, Error, guard, ok-injective, or_fail, ◌>>=◌,
}
use multi_agent_com.Service.Leases.{hitl_expires_at, validate_length, limit_256}
use multi_agent_com.Service.Locks.Symbols.{GoTools}
use multi_agent_com.Service.Locks.{
  CodeLockInput, marker, check_code_lock, check_locked_text, check_lock_task, validate_code_lock,
  normalize_lock_mode,
}

-- The first call of a chain that succeeds has succeeded, and so has the rest.
bind_ok :
    {A B : Type 0} (r : Result A) (f : A → Result B) {y : B}
    → (r >>= f) ≡ ok y
    → (x : A) × (r ≡ ok x) × (f x ≡ ok y)
bind_ok (ok x) f h = (x, refl, h)
bind_ok (err e) f h = absurd (cc h)

guard_ok : (b : Bool) (e : Error) {u : Unit {0}} → guard b e ≡ ok u → b ≡ true
guard_ok true e h = refl
guard_ok false e h = absurd (cc h)

-- The text of a lock: a path inside the bundle and a content that carries the marker.
pub record IsLockable (l : CodeLock) : Type 0 where
  pub named : is_empty l.path ≡ false
  pub relative : (starts_with l.path "/" || has_text l.path "..") ≡ false
  pub marked : has_text l.content marker ≡ true

not-true : (b : Bool) → not b ≡ true → b ≡ false
not-true true h = absurd (cc h)
not-true false h = refl

check_locked_text_lem :
    (path content : String) {u : Unit {0}}
    → check_locked_text path content ≡ ok u
    → (is_empty path ≡ false)
      × ((starts_with path "/" || has_text path "..") ≡ false)
      × (has_text content marker ≡ true)
unfolding check_locked_text
check_locked_text_lem path content h =
    let (_, named, h1) = bind_ok (guard (not (is_empty path)) _) _ h in
    let (_, short, h2) = bind_ok (validate_length path "path" _) _ h1 in
    let (_, relative, h3) =
      bind_ok (guard (not (starts_with path "/" || has_text path "..")) _) _ h2 in
    let (_, filled, h4) = bind_ok (guard (not (is_empty (trim content))) _) _ h3 in
    let (_, small, h5) = bind_ok (validate_length content "content" _) _ h4 in
    (
      not-true _ (guard_ok _ _ named),
      not-true _ (guard_ok _ _ relative),
      guard_ok (has_text content marker) _ h5,
    )

-- A lock that the checks make is lockable, under the drawn ID.
pub check_code_lock-IsLockable :
    (w : World) (g : GoTools) (p : Persisted) (id project_id actor : String) (input : CodeLockInput)
    (now : ℕ) (project : Project) (l : CodeLock)
    → check_code_lock w g p id project_id actor input now ≡ ok (project, l)
    → IsLockable l × (l.id ≡ id)
unfolding check_code_lock
check_code_lock-IsLockable w g p id project_id actor input now project l h =
    let (_, _, h1) = bind_ok (or_fail (p.projects project_id) _) _ h in
    let (_, text, h2) = bind_ok (check_locked_text (trim input.path) input.content) _ h1 in
    let (_, _, h3) =
      bind_ok (guard (not (is_empty (normalize_lock_mode w input.lock_mode))) _) _ h2 in
    let (_, _, h4) = bind_ok (validate_length (trim input.created_by) "createdBy" limit_256) _ h3 in
    let (_, _, h5) =
      bind_ok
        (validate_code_lock w g (trim input.path) input.content
          (normalize_lock_mode w input.lock_mode) (trim input.language) (trim input.symbol_kind)
          (trim input.symbol_name))
        _ h4 in
    let (_, _, h6) = bind_ok (check_lock_task p project_id input.task_id) _ h5 in
    let (_, _, h7) = bind_ok (hitl_expires_at now input.ttl_seconds) _ h6 in
    let (named, relative, marked) = check_locked_text_lem (trim input.path) input.content text in
    subst (λ x. IsLockable x.1 × (x.1.id ≡ id)) (ok-injective h7)
      (record { named = named; relative = relative; marked = marked }, refl)
