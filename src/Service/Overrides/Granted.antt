-- ===== src/Service/Overrides/Granted.antt =====
-- internal/service/service.go: what a request to `ApplyHumanOverride` gets, a lease or a conflict.
use multi_agent_com.Base.{
  ℕ, String, ◌==◌, ◌≡◌, refl, sym, subst, inl, inr, Bool-cases, none, some, List, [], ◌∷◌, All,
  snoc, put_self, true, false, eq_iff, find_first-none,
}
use multi_agent_com.Domain.Records.{HumanOverride}
use multi_agent_com.Domain.Task.{human_override}
use multi_agent_com.Service.State.{Service, World, ok, Result-cases, persist, ok-injective}
use multi_agent_com.Service.Logs.{record_communication, record_audit}
use multi_agent_com.Service.Tasks.{store_task}
use multi_agent_com.Service.Start.{Answers}
use multi_agent_com.Service.Leases.{hitl_override_owner, override_scope}
use multi_agent_com.Service.Execution.{is_pending}
use multi_agent_com.Service.Overrides.{
  OverrideInput, OverrideIds, OverrideReply, OverrideRequest, HumanOverrideResult, check_override,
  clashes, find_override_conflict, new_override, record_override, accept_override,
  queue_override_conflict, apply_human_override,
}
use multi_agent_com.Service.Overrides.Safety.{
  apply_human_override_cases, override_task_lem, check_override_active,
}

-- An override that waits for the task and covers the scope belongs to the owner.
abbrev pub OwnedBy : World → String → String → String → ℕ → HumanOverride → Type 0
OwnedBy w task_id scope owner now o =
    is_pending now task_id o ≡ true
    → override_scope w o.task_id o.lock_scope ≡ scope
    → hitl_override_owner o ≡ owner

no_clash-OwnedBy :
    (w : World) (task_id scope owner : String) (now : ℕ) (os : List HumanOverride)
    → All (λ o. clashes w task_id scope owner now o ≡ false) os
    → All (OwnedBy w task_id scope owner now) os
unfolding clashes
no_clash-OwnedBy w task_id scope owner now [] h = tt
no_clash-OwnedBy w task_id scope owner now (o ∷ os) (h, hs) = (
  λ waits same. elim (Bool-cases (hitl_override_owner o == owner)) [
    | inl e ↦ (eq_iff (hitl_override_owner o) owner).0 e
    | inr e ↦ absurd (
        cc (
          rw (waits, e, (eq_iff (override_scope w o.task_id o.lock_scope) scope).1 same, clashes) at
            h))
  ],
  no_clash-OwnedBy w task_id scope owner now os hs,
)

-- What a success of `ApplyHumanOverride` means.
pub record Granted (w : World) (project_id : String) (now : ℕ) (s : Service) (x : OverrideReply)
    (g : HumanOverrideResult) : Type 0 where
  pub exclusive :
      All
        (OwnedBy w g.task.id
          (override_scope w g.task.id g.override.lock_scope)
          g.override.owner
          now)
        (s.data'.overrides project_id)
  pub queued : x.state.data'.overrides project_id ≡ snoc (s.data'.overrides project_id) g.override
  pub indexed : x.state.index.override_index g.override.id ≡ some g.override
  pub stored : x.state.data'.tasks g.task.id ≡ some g.task
  pub same_task : g.override.task_id ≡ g.task.id
  pub stopped : g.task.status ≡ human_override
  pub no_conflict : x.conflict ≡ none

module _ (w : World) (a : Answers) (ids : OverrideIds) (project_id actor : String)
    (input : OverrideInput) (now : ℕ) (s : Service) where
  accept_override-Granted :
      (r : OverrideRequest)
      → check_override s.data' project_id actor input now ≡ ok r
      → find_override_conflict w (s.data'.overrides project_id) r.task.id r.lock_scope r.owner now
        ≡ none
      → (g : HumanOverrideResult) → (accept_override w a ids project_id actor r now s).result ≡ ok g
      → Granted w project_id now s (accept_override w a ids project_id actor r now s) g
  unfolding accept_override find_override_conflict record_override record_audit record_communication
      store_task new_override
  accept_override-Granted r c f g h =
      let o = new_override ids.override project_id r now in
      let (t, moved_to, named, trail, weaker, stops) = override_task_lem r o.operator now in
      elim (Result-cases (persist a.save)) [
        | inr (_, e) ↦ absurd (cc (rw (moved_to, e, accept_override) at h))
        | inl (_, e) ↦
            let same = ok-injective (rw (moved_to, e, accept_override) at h) in
            subst (Granted w project_id now s (accept_override w a ids project_id actor r now s))
              same
              (rw (moved_to, accept_override)
                (record {
                  exclusive =
                      subst
                        (λ i.
                          All (OwnedBy w i (override_scope w i r.lock_scope) r.owner now)
                            (s.data'.overrides project_id))
                        (sym named)
                        (no_clash-OwnedBy w r.task.id (override_scope w r.task.id r.lock_scope)
                          r.owner now (s.data'.overrides project_id)
                          (find_first-none _ (s.data'.overrides project_id) f));
                  queued = put_self s.data'.overrides project_id _;
                  indexed = put_self s.index.override_index ids.override _;
                  stored = put_self s.data'.tasks t.id _;
                  same_task = sym named;
                  stopped = stops (check_override_active s.data' project_id actor input now r c);
                  no_conflict = refl;
                }))
      ]

  -- When `ApplyHumanOverride` succeeds every override that waits for the task under the same scope
  -- belongs to the owner of the new one, which stands at the end of the list and in the index; and
  -- the task is stored under HUMAN_OVERRIDE.
  pub apply_human_override-Granted :
      (g : HumanOverrideResult)
      → (apply_human_override w a ids project_id actor input now s).result ≡ ok g
      → Granted w project_id now s (apply_human_override w a ids project_id actor input now s) g
  unfolding queue_override_conflict
  apply_human_override-Granted =
      apply_human_override_cases w a ids project_id actor input now s
        (λ x. (g : HumanOverrideResult) → x.result ≡ ok g → Granted w project_id now s x g)
        (λ e g h. absurd (cc h))
        (λ r current c f g h. absurd (elim (Result-cases (persist a.save)) [
          | inl (_, e) ↦ cc (rw (e, queue_override_conflict) at h)
          | inr (_, e) ↦ cc (rw (e, queue_override_conflict) at h)
        ]))
        accept_override-Granted
