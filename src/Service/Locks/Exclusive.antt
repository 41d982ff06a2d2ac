-- ===== src/Service/Locks/Exclusive.antt =====
-- internal/service/service.go: what a request to `ApplyCodeLock` gets, a lock or a conflict.
use multi_agent_com.Base.{
  ℕ, String, ◌==◌, ◌≡◌, refl, sym, subst, inl, inr, Bool-cases, none, some, Option-cases, List, [],
  ◌∷◌, All, snoc, put_self, true, false, eq_iff, find_first-none,
}
use multi_agent_com.Domain.Records.{Project, CodeLock}
use multi_agent_com.Service.State.{
  Service, World, ok, err, Error, Result-cases, plain, persist, ok-injective,
}
use multi_agent_com.Service.Logs.{record_communication, record_audit}
use multi_agent_com.Service.Start.{Answers}
use multi_agent_com.Service.Leases.{lease_active}
use multi_agent_com.Service.Runs.Safety.{IsSound}
use multi_agent_com.Service.Locks.Checks.{IsLockable, check_code_lock-IsLockable}
use multi_agent_com.Service.Overrides.{enqueue_conflict}
use multi_agent_com.Service.Locks.Symbols.{GoTools}
use multi_agent_com.Service.Locks.{
  CodeLockInput, LockIds, CodeLockResult, LockReply, check_code_lock, code_lock_scope,
  hitl_lock_owner, lock_clashes, find_lock_conflict, record_lock, accept_lock, queue_lock_conflict,
  apply_code_lock,
}

-- A lock in force on the scope belongs to the owner.
abbrev pub LockOwnedBy : World → String → String → ℕ → CodeLock → Type 0
LockOwnedBy w scope owner now l =
    lease_active now l.expires_at ≡ true → code_lock_scope w l ≡ scope → hitl_lock_owner l ≡ owner

pub no_clash-LockOwnedBy :
    (w : World) (scope owner : String) (now : ℕ) (ls : List CodeLock)
    → All (λ l. lock_clashes w scope owner now l ≡ false) ls
    → All (LockOwnedBy w scope owner now) ls
unfolding lock_clashes
no_clash-LockOwnedBy w scope owner now [] h = tt
no_clash-LockOwnedBy w scope owner now (l ∷ ls) (h, hs) = (
  λ active same. elim (Bool-cases (hitl_lock_owner l == owner)) [
    | inl e ↦ (eq_iff (hitl_lock_owner l) owner).0 e
    | inr e ↦
        absurd (cc (rw (active, e, (eq_iff (code_lock_scope w l) scope).1 same, lock_clashes) at h))
  ],
  no_clash-LockOwnedBy w scope owner now ls hs,
)

-- The handler refuses the request, queues a conflict, or accepts the lock.
pub apply_code_lock_cases {ℓ} :
    (w : World) (g : GoTools) (a : Answers) (ids : LockIds) (project_id actor : String)
    (input : CodeLockInput) (now : ℕ) (s : Service) (P : LockReply → Type ℓ)
    → ((e : Error) → P (record { state = s; conflict = none; result = err e }))
    → ((project : Project) (l current : CodeLock)
        → P (queue_lock_conflict w a ids project_id actor project l current now s))
    → ((project : Project) (l : CodeLock)
        → check_code_lock w g s.data' ids.lock project_id actor input now ≡ ok (project, l)
        → find_lock_conflict w (s.data'.locks project_id) l now ≡ none
        → P (accept_lock w a ids project_id actor project l now s))
    → P (apply_code_lock w g a ids project_id actor input now s)
unfolding apply_code_lock
apply_code_lock_cases w g a ids project_id actor input now s P early queued accepted =
    elim (Option-cases a.lock) [
      | inr (e, locked) ↦ rw (locked, apply_code_lock) (early (plain e))
      | inl free ↦
          elim (Result-cases (check_code_lock w g s.data' ids.lock project_id actor input now)) [
            | inr (e, c) ↦ rw (free, c, apply_code_lock) (early e)
            | inl ((project, l), c) ↦
                elim (Option-cases (find_lock_conflict w (s.data'.locks project_id) l now)) [
                  | inr (current, f) ↦ rw (free, c, f, apply_code_lock) (queued project l current)
                  | inl f ↦ rw (free, c, f, apply_code_lock) (accepted project l c f)
                ]
          ]
    ]

-- What a success of `ApplyCodeLock` means.
pub record Locked (w : World) (project_id id : String) (now : ℕ) (s : Service) (x : LockReply)
    (g : CodeLockResult) : Type 0 where
  pub exclusive :
      All
        (LockOwnedBy w (code_lock_scope w g.lock) (hitl_lock_owner g.lock) now)
        (s.data'.locks project_id)
  pub lockable : IsLockable g.lock
  pub queued : x.state.data'.locks project_id ≡ snoc (s.data'.locks project_id) g.lock
  pub indexed : x.state.index.lock_index id ≡ some g.lock
  pub same_tasks : x.state.data'.tasks ≡ s.data'.tasks
  pub same_runs : x.state.data'.runs ≡ s.data'.runs
  pub no_conflict : x.conflict ≡ none

module _ (w : World) (g : GoTools) (a : Answers) (ids : LockIds) (project_id actor : String)
    (input : CodeLockInput) (now : ℕ) (s : Service) where
  accept_lock-Locked :
      (project : Project) (l : CodeLock)
      → check_code_lock w g s.data' ids.lock project_id actor input now ≡ ok (project, l)
      → find_lock_conflict w (s.data'.locks project_id) l now ≡ none
      → (x : CodeLockResult) → (accept_lock w a ids project_id actor project l now s).result ≡ ok x
      → Locked w project_id ids.lock now s (accept_lock w a ids project_id actor project l now s) x
  unfolding accept_lock find_lock_conflict record_lock record_audit record_communication
  accept_lock-Locked project l c f x h =
      let (lockable, same_id) =
        check_code_lock-IsLockable w g s.data' ids.lock project_id actor input now project l c in
      elim (Result-cases (persist a.save)) [
        | inr (_, e) ↦ absurd (cc (rw (e, accept_lock) at h))
        | inl (_, e) ↦
            subst
              (Locked w project_id ids.lock now s
                (accept_lock w a ids project_id actor project l now s))
              (ok-injective (rw (e, accept_lock) at h))
              (record {
                exclusive =
                    no_clash-LockOwnedBy w (code_lock_scope w l) (hitl_lock_owner l) now
                      (s.data'.locks project_id) (find_first-none _ (s.data'.locks project_id) f);
                lockable = lockable;
                queued = put_self s.data'.locks project_id _;
                indexed = rw (sym same_id) (put_self s.index.lock_index l.id _);
                same_tasks = refl;
                same_runs = refl;
                no_conflict = refl;
              })
      ]

  -- When `ApplyCodeLock` succeeds every lock in force on the same scope belongs to the owner of the
  -- new one, which stands at the end of the list and in the index; its path is relative and stays
  -- inside the bundle, its content carries the marker, and no task and no run changes.
  pub apply_code_lock-Locked :
      (x : CodeLockResult)
      → (apply_code_lock w g a ids project_id actor input now s).result ≡ ok x
      → Locked w project_id ids.lock now s
          (apply_code_lock w g a ids project_id actor input now s)
          x
  unfolding queue_lock_conflict
  apply_code_lock-Locked =
      apply_code_lock_cases w g a ids project_id actor input now s
        (λ r. (x : CodeLockResult) → r.result ≡ ok x → Locked w project_id ids.lock now s r x)
        (λ e x h. absurd (cc h))
        (λ project l current x h. absurd (elim (Result-cases (persist a.save)) [
          | inl (_, e) ↦ cc (rw (e, queue_lock_conflict) at h)
          | inr (_, e) ↦ cc (rw (e, queue_lock_conflict) at h)
        ]))
        accept_lock-Locked

  -- `ApplyCodeLock` keeps the state in order, whether it refuses the request, queues a conflict or
  -- accepts the lock, and whatever `SaveState` answers.
  pub apply_code_lock-IsSound :
      IsSound s → IsSound (apply_code_lock w g a ids project_id actor input now s).state
  unfolding queue_lock_conflict accept_lock enqueue_conflict record_lock record_audit
      record_communication
  apply_code_lock-IsSound inv =
      apply_code_lock_cases w g a ids project_id actor input now s (λ x. IsSound x.state) (λ e. inv)
        (λ project l current. elim (Result-cases (persist a.save)) [
          | inl (_, e) ↦ rw (e, queue_lock_conflict) inv
          | inr (_, e) ↦ rw (e, queue_lock_conflict) inv
        ])
        (λ project l c f. inv)
