-- ===== src/Service/Locks/Settled.antt =====
-- internal/service/service.go: the owners of the code locks in force, and the locks of a bundle.
use multi_agent_com.Base.{
  ℕ, ◌≤◌, String, ◌≡◌, refl, sym, ◌∙◌, inl, inr, Bool-cases, some, Option-cases, List, [], ◌∷◌, All,
  All-snoc, subst, snoc, put_self, put_cases, true, eq_iff, find_first-none, arith,
}
use mathlib.Core.Option.{some-injective}
use multi_agent_com.Domain.Records.{CodeLock}
use multi_agent_com.Service.State.{Service, World, Result-cases, persist}
use multi_agent_com.Service.Logs.{record_audit, record_communication}
use multi_agent_com.Service.Start.{Answers}
use multi_agent_com.Service.Leases.{lease_active}
use multi_agent_com.Service.Overrides.{enqueue_conflict}
use multi_agent_com.Service.Locks.Symbols.{GoTools}
use multi_agent_com.Service.Locks.{
  CodeLockInput, LockIds, code_lock_scope, hitl_lock_owner, find_lock_conflict, accept_lock,
  queue_lock_conflict, record_lock, apply_code_lock,
}
use multi_agent_com.Service.Locks.Exclusive.{
  LockOwnedBy, apply_code_lock_cases, no_clash-LockOwnedBy,
}
use multi_agent_com.Service.Locks.Bundle.{
  applies, Chosen, met, choose_lock, choose_locks, nothing_chosen, record_clashes, Stamp,
  bundle_locks,
}

-- Two locks in force on one scope have one owner.
abbrev pub Agrees : World → ℕ → CodeLock → CodeLock → Type 0
Agrees w now l k =
    lease_active now l.expires_at ≡ true
    → lease_active now k.expires_at ≡ true
    → code_lock_scope w l ≡ code_lock_scope w k
    → hitl_lock_owner l ≡ hitl_lock_owner k

-- So do any two of the list.
abbrev pub IsExclusive : World → ℕ → List CodeLock → Type 0
IsExclusive w now [] = Unit
IsExclusive w now (l ∷ ls) = All (Agrees w now l) ls × IsExclusive w now ls

-- A lease in force later is in force now.
lease_active-earlier :
    (now later e : ℕ) → now ≤ later → lease_active later e ≡ true → lease_active now e ≡ true
unfolding lease_active
lease_active-earlier now later e le h = ground arith

module _ (w : World) where
  Agrees-later :
      (now later : ℕ)
      → now ≤ later
      → (l : CodeLock) (ks : List CodeLock) → All (Agrees w now l) ks
      → All (Agrees w later l) ks
  Agrees-later now later le l [] h = tt
  Agrees-later now later le l (k ∷ ks) (h, hs) = (
    λ a b. h (lease_active-earlier now later _ le a) (lease_active-earlier now later _ le b),
    Agrees-later now later le l ks hs,
  )

  IsExclusive-later :
      (now later : ℕ)
      → now ≤ later
      → (ls : List CodeLock) → IsExclusive w now ls
      → IsExclusive w later ls
  IsExclusive-later now later le [] h = tt
  IsExclusive-later now later le (l ∷ ls) (h, hs) =
      (Agrees-later now later le l ls h, IsExclusive-later now later le ls hs)

  -- A lock that meets no conflict joins the list.
  snoc-IsExclusive :
      (now : ℕ) (ls : List CodeLock) (l : CodeLock)
      → IsExclusive w now ls
      → All (LockOwnedBy w (code_lock_scope w l) (hitl_lock_owner l) now) ls
      → IsExclusive w now (snoc ls l)
  snoc-IsExclusive now [] l h o = (tt, tt)
  snoc-IsExclusive now (k ∷ ks) l (h, hs) (o, os) =
      (All-snoc (Agrees w now k) ks l h (λ a b same. o a same), snoc-IsExclusive now ks l hs os)

  -- What has been chosen agrees with the locks to come.
  abbrev IsFit : ℕ → Chosen → List CodeLock → Type 0
  IsFit now c ls =
      (k : String) (e : CodeLock)
      → c.locks k ≡ some e
      → (code_lock_scope w e ≡ k) × (lease_active now e.expires_at ≡ true) × All (Agrees w now e) ls

  choose_lock-IsFit :
      (now : ℕ) (c : Chosen) (l : CodeLock) (ls : List CodeLock)
      → lease_active now l.expires_at ≡ true
      → All (Agrees w now l) ls
      → IsFit now c (l ∷ ls)
      → IsFit now (choose_lock w l c) ls
  unfolding choose_lock
  choose_lock-IsFit now c l ls active agrees fit k e found =
      elim (put_cases c.locks (code_lock_scope w l) (some l) k) [
        | inl (same, new) ↦
            subst
              (λ (x : CodeLock).
                (code_lock_scope w x ≡ k)
                × (lease_active now x.expires_at ≡ true)
                × All (Agrees w now x) ls)
              (some-injective _ _ (sym new ∙ found)) (same, active, agrees)
        | inr (_, old) ↦
            let (named, holds, all) = fit k e (sym old ∙ found) in (named, holds, all.1)
      ]

  met_nothing :
      (now : ℕ) (c : Chosen) (l : CodeLock) (ls : List CodeLock)
      → lease_active now l.expires_at ≡ true
      → IsFit now c (l ∷ ls)
      → (choose_lock w l c).clashes ≡ c.clashes
  unfolding choose_lock met
  met_nothing now c l ls active fit = elim (Option-cases (c.locks (code_lock_scope w l))) [
    | inl free ↦ rw free refl
    | inr (e, taken) ↦
        let (named, holds, all) = fit (code_lock_scope w l) e taken in
        rw (taken, (eq_iff (hitl_lock_owner e) (hitl_lock_owner l)).1 (all.0 holds active named))
          refl
  ]

  applies-active :
      (task_id : String) (now : ℕ) (l : CodeLock)
      → applies task_id now l ≡ true
      → lease_active now l.expires_at ≡ true
  unfolding applies
  applies-active task_id now l h = ground arith

  choose_locks_clean :
      (task_id : String) (now : ℕ) (ls : List CodeLock) (c : Chosen)
      → IsExclusive w now ls
      → IsFit now c ls
      → (choose_locks w task_id now ls c).clashes ≡ c.clashes
  unfolding choose_locks
  choose_locks_clean task_id now [] c h fit = refl
  choose_locks_clean task_id now (l ∷ ls) c (h, hs) fit =
      elim (Bool-cases (applies task_id now l)) [
        | inr unused ↦
            rw (unused, choose_locks)
              (choose_locks_clean task_id now ls c hs
                (λ k e found. let (named, holds, all) = fit k e found in (named, holds, all.1)))
        | inl used ↦
            let active = applies-active task_id now l used in
            rw (used, choose_locks)
              (choose_locks_clean task_id now ls (choose_lock w l c) hs
                  (choose_lock-IsFit now c l ls active h fit)
                ∙ met_nothing now c l ls active fit)
      ]

-- A conflict leaves the locks as they are, and an accepted lock joins those of its owner.
apply_code_lock-IsExclusive :
    (w : World) (g : GoTools) (a : Answers) (ids : LockIds) (project_id actor : String)
    (input : CodeLockInput) (now : ℕ) (s : Service)
    → IsExclusive w now (s.data'.locks project_id)
    → IsExclusive w now
        ((apply_code_lock w g a ids project_id actor input now s).state.data'.locks project_id)
unfolding queue_lock_conflict accept_lock enqueue_conflict record_lock record_audit
    record_communication find_lock_conflict
apply_code_lock-IsExclusive w g a ids project_id actor input now s h =
    apply_code_lock_cases w g a ids project_id actor input now s
      (λ x. IsExclusive w now (x.state.data'.locks project_id)) (λ e. h)
      (λ project l current. elim (Result-cases (persist a.save)) [
        | inl (_, e) ↦ rw (e, queue_lock_conflict) h
        | inr (_, e) ↦ rw (e, queue_lock_conflict) h
      ])
      (λ project l c f. subst (IsExclusive w now) (sym (put_self s.data'.locks project_id _)) (
        snoc-IsExclusive w now (s.data'.locks project_id) l h (
          no_clash-LockOwnedBy w (code_lock_scope w l) (hitl_lock_owner l) now
            (s.data'.locks project_id) (find_first-none _ (s.data'.locks project_id) f))))

-- Where any two locks in force on one scope have one owner, that holds after `ApplyCodeLock`, then and
-- later; and a bundle made later for any task meets no conflict between the locks of the project:
-- it has no line on one, and the state is left as it is.
pub apply_code_lock-Settled :
    (w : World) (g : GoTools) (a : Answers) (ids : LockIds) (project_id actor : String)
    (input : CodeLockInput) (now later : ℕ) (s : Service) (stamps : ℕ → Stamp) (task_id : String)
    → IsExclusive w now (s.data'.locks project_id)
    → now ≤ later
    → let t = (apply_code_lock w g a ids project_id actor input now s).state in
      let bundle = bundle_locks w stamps project_id task_id later t in
      IsExclusive w later (t.data'.locks project_id) × (bundle.lines ≡ []) × (bundle.state ≡ t)
unfolding bundle_locks record_clashes
apply_code_lock-Settled w g a ids project_id actor input now later s stamps task_id h le =
    let t = (apply_code_lock w g a ids project_id actor input now s).state in
    let apart =
      IsExclusive-later w now later le (t.data'.locks project_id)
        (apply_code_lock-IsExclusive w g a ids project_id actor input now s h) in
    let clean =
      choose_locks_clean w task_id later (t.data'.locks project_id) nothing_chosen apart
        (λ k e found. absurd (cc found)) in
    (apart, rw clean refl, rw clean refl)
