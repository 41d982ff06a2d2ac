-- ===== src/Domain/Audit.antt =====
-- internal/domain/model.go: the edges of the task state machine and the audit trail that
-- `TransitionTo` keeps.
use multi_agent_com.Base.{
  ℕ, String, ◌≡◌, refl, ◌⊎◌, inl, inr, true, false, none, some, List, [], ◌∷◌, snoc, Bool-cases,
  arith,
}
use Prim.Native.String.{◌++◌ as ◌+++◌}
use multi_agent_com.Domain.Task.{
  status_text, TaskStatus, created, in_progress, human_override, done, failed, TaskTransition, Task,
  new_task, is_allowed_transition, moved, refused, transition_to,
}

-- The diagram of `isAllowedTransition`, edge by edge. docs/Spec-Refined.md, section 4.2, draws another
-- one, with more states and edges.
pub data Edge : TaskStatus → TaskStatus → Type 0 where
  start : Edge created in_progress
  finish : Edge in_progress done
  fail : Edge in_progress failed
  interrupt : Edge in_progress human_override
  resume : Edge human_override in_progress
  finish_overridden : Edge human_override done
  fail_overridden : Edge human_override failed

ruleset edges = (start, finish, fail, interrupt, resume, finish_overridden, fail_overridden)

pub Edge-allowed : {a b : TaskStatus} → Edge a b → is_allowed_transition a b ≡ true
unfolding is_allowed_transition
Edge-allowed start = refl
Edge-allowed finish = refl
Edge-allowed fail = refl
Edge-allowed interrupt = refl
Edge-allowed resume = refl
Edge-allowed finish_overridden = refl
Edge-allowed fail_overridden = refl

pub allowed-Edge : (a b : TaskStatus) → is_allowed_transition a b ≡ true → Edge a b
unfolding is_allowed_transition
allowed-Edge created in_progress h = start
allowed-Edge in_progress done h = finish
allowed-Edge in_progress failed h = fail
allowed-Edge in_progress human_override h = interrupt
allowed-Edge human_override in_progress h = resume
allowed-Edge human_override done h = finish_overridden
allowed-Edge human_override failed h = fail_overridden
allowed-Edge created created h = cc
allowed-Edge _ _ h = cc

-- What a successful transition makes of a task.
abbrev pub after_transition : Task → TaskStatus → String → ℕ → Task
after_transition t next reason now = record t {
  status = next;
  updated_at = now;
  audit = snoc t.audit (record { from = some t.status; to = next; reason = reason; at = now });
}

pub transition_to_ok :
    (t : Task) (next : TaskStatus) (reason : String) (now : ℕ)
    → is_allowed_transition t.status next ≡ true
    → transition_to t next reason now ≡ moved (after_transition t next reason now)
unfolding transition_to
transition_to_ok t next reason now h = rw (h, transition_to)

abbrev pub refusal : Task → TaskStatus → String
refusal t next =
    "invalid task transition: " +++ (status_text t.status +++ (" -> " +++ status_text next))

pub transition_to_error :
    (t : Task) (next : TaskStatus) (reason : String) (now : ℕ)
    → is_allowed_transition t.status next ≡ false
    → transition_to t next reason now ≡ refused (refusal t next)
unfolding transition_to
transition_to_error t next reason now h = rw (h, transition_to)

-- `TransitionTo` succeeds on exactly the edges of the code's diagram; it then sets the status and the
-- time and appends one audit entry from the old status to the new one, and nothing else changes.
-- Off the diagram it reports an error that names both statuses.
pub transition_to-Edge :
    (t : Task) (next : TaskStatus) (reason : String) (now : ℕ)
    → (Edge t.status next
        × (transition_to t next reason now ≡ moved (after_transition t next reason now)))
      ⊎ ((¬ Edge t.status next) × (transition_to t next reason now ≡ refused (refusal t next)))
transition_to-Edge t next reason now = elim (Bool-cases (is_allowed_transition t.status next)) [
  | inl holds ↦ inl (allowed-Edge t.status next holds, transition_to_ok t next reason now holds)
  | inr fails ↦ inr (λ e. cc (Edge-allowed e), transition_to_error t next reason now fails)
]

-- An audit trail: it starts with the creation, each entry leaves from where the one before
-- arrived, along an edge of the diagram, and the last one arrives at the status.
pub data IsTrail : List TaskTransition → TaskStatus → Type 0 where
  born :
      (reason : String) (at : ℕ)
      → IsTrail (record { from = none; to = created; reason = reason; at = at } ∷ []) created
  grown :
      (trail : List TaskTransition) {a b : TaskStatus} (reason : String) (at : ℕ)
      → IsTrail trail a
      → Edge a b
      → IsTrail (snoc trail (record { from = some a; to = b; reason = reason; at = at })) b

abbrev pub HasTrail : Task → Type 0
HasTrail t = IsTrail t.audit t.status

pub new_task-HasTrail :
    (id project_id plan_id name kind agent : String) (deps : List String) (input : String) (now : ℕ)
    → HasTrail (new_task id project_id plan_id name kind agent deps input now)
unfolding new_task
new_task-HasTrail id project_id plan_id name kind agent deps input now = born "task created" now

pub after_transition-HasTrail :
    (t : Task) (next : TaskStatus) (reason : String) (now : ℕ)
    → Edge t.status next
    → HasTrail t
    → HasTrail (after_transition t next reason now)
after_transition-HasTrail t next reason now e h = grown t.audit reason now h e

-- A caller that logs the error and goes on: the task is left as it was.
unfoldable pub try_transition : Task → TaskStatus → String → ℕ → Task
try_transition t next reason now = elim (transition_to t next reason now) [
  | moved t' ↦ t'
  | refused message ↦ t
]

pub try_transition_cases {ℓ} :
    (P : Task → Type ℓ) (t : Task) (next : TaskStatus) (reason : String) (now : ℕ)
    → (Edge t.status next → P (after_transition t next reason now))
    → P t
    → P (try_transition t next reason now)
unfolding try_transition
try_transition_cases P t next reason now hit miss = elim (transition_to-Edge t next reason now) [
  | inl (e, r) ↦ rw (r, try_transition) (hit e)
  | inr (e, r) ↦ rw (r, try_transition) miss
]

pub try_transition_ok :
    (t : Task) (next : TaskStatus) (reason : String) (now : ℕ)
    → Edge t.status next
    → try_transition t next reason now ≡ after_transition t next reason now
unfolding try_transition
try_transition_ok t next reason now e =
    rw (transition_to_ok t next reason now (Edge-allowed e), try_transition)

pub try_transition-HasTrail :
    (t : Task) (next : TaskStatus) (reason : String) (now : ℕ)
    → HasTrail t
    → HasTrail (try_transition t next reason now)
try_transition-HasTrail t next reason now h =
    try_transition_cases HasTrail t next reason now
      (λ e. after_transition-HasTrail t next reason now e h) h

-- A sequence of requests to move a task, the refused ones without effect.
pub record Request : Type 0 where
  pub next : TaskStatus
  pub reason : String
  pub at : ℕ

pub requests : Task → List Request → Task
requests t [] = t
requests t (r ∷ rs) = requests (try_transition t r.next r.reason r.at) rs

pub requests-HasTrail : (t : Task) (rs : List Request) → HasTrail t → HasTrail (requests t rs)
unfolding requests
requests-HasTrail t [] h = h
requests-HasTrail t (r ∷ rs) h =
    requests-HasTrail (try_transition t r.next r.reason r.at) rs
      (try_transition-HasTrail t r.next r.reason r.at h)

-- Whatever is asked of a task from its creation on, its audit trail is a path of the diagram from
-- CREATED to its status.
pub requests-new_task-HasTrail :
    (id project_id plan_id name kind agent : String) (deps : List String) (input : String) (now : ℕ)
    (rs : List Request)
    → HasTrail (requests (new_task id project_id plan_id name kind agent deps input now) rs)
requests-new_task-HasTrail id project_id plan_id name kind agent deps input now rs =
    requests-HasTrail _ rs (new_task-HasTrail id project_id plan_id name kind agent deps input now)

abbrev pub IsTerminal : TaskStatus → Type 0
IsTerminal s = (s ≡ done) ⊎ (s ≡ failed)

pub IsTerminal-no_Edge : {a b : TaskStatus} → Edge a b → ¬ IsTerminal a
IsTerminal-no_Edge start t = ground arith
IsTerminal-no_Edge finish t = ground arith
IsTerminal-no_Edge fail t = ground arith
IsTerminal-no_Edge interrupt t = ground arith
IsTerminal-no_Edge resume t = ground arith
IsTerminal-no_Edge finish_overridden t = ground arith
IsTerminal-no_Edge fail_overridden t = ground arith

pub try_transition_terminal :
    (t : Task) (next : TaskStatus) (reason : String) (now : ℕ)
    → IsTerminal t.status
    → try_transition t next reason now ≡ t
try_transition_terminal t next reason now h =
    try_transition_cases (λ t'. t' ≡ t) t next reason now (λ e. absurd (IsTerminal-no_Edge e h))
      refl

-- A task that is DONE or FAILED never changes again, whatever transitions are asked of it.
pub requests_terminal : (t : Task) (rs : List Request) → IsTerminal t.status → requests t rs ≡ t
unfolding requests
requests_terminal t [] h = refl
requests_terminal t (r ∷ rs) h =
    let same = try_transition_terminal t r.next r.reason r.at h in
    rw same (requests_terminal t rs h)
