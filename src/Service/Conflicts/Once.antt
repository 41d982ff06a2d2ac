-- ===== src/Service/Conflicts/Once.antt =====
-- internal/service/service.go: `ResolveConflictQueueEntry`, called again for the same conflict.
use multi_agent_com.Base.{
  ℕ, String, ◌==◌, ◌≡◌, sym, ap, ◌∙◌, inl, inr, some, Option-cases, put_self, arith, trim, false,
}
use multi_agent_com.Domain.Records.{ConflictQueueEntry}
use multi_agent_com.Service.State.{
  Service, Result, ok, err, Error, Result-cases, persist, plain, ok-injective, ◌>>=◌,
}
use multi_agent_com.Service.Logs.{record_audit}
use multi_agent_com.Service.Runs.Safety.{IsSound}
use multi_agent_com.Service.Start.{Answers}
use multi_agent_com.Service.Conflicts.{
  ResolveInput, OpenConflict, check_resolve, resolved, record_resolved, resolve_conflict,
}

-- A conflict that is no longer OPEN passes no checks.
closed_refused :
    (s : Service) (project_id conflict_id : String) (input : ResolveInput) (q : ConflictQueueEntry)
    → s.index.conflict_index (trim conflict_id) ≡ some q
    → (q.status == "OPEN") ≡ false
    → (e : Error) × (check_resolve s project_id conflict_id input ≡ err e)
unfolding check_resolve
closed_refused s project_id conflict_id input q found closed =
    elim (Result-cases (check_resolve s project_id conflict_id input)) [
      | inr (e, r) ↦ (e, r)
      | inl (c, r) ↦ absurd (ground arith)
    ]

-- The handler refuses the request, or records the resolved conflict.
pub resolve_conflict_cases {ℓ} :
    (a : Answers) (audit_id actor project_id conflict_id : String) (input : ResolveInput) (now : ℕ)
    (s : Service) (P : Service × Result ConflictQueueEntry → Type ℓ)
    → ((e : Error) → P (s, err e))
    → ((c : OpenConflict)
        → P (
          record_resolved audit_id actor project_id conflict_id c.project
              (resolved actor input now c.conflict)
              now
              s,
          persist a.save >>= λ _. ok (resolved actor input now c.conflict),
        ))
    → P (resolve_conflict a audit_id actor project_id conflict_id input now s)
unfolding resolve_conflict
resolve_conflict_cases a audit_id actor project_id conflict_id input now s P early late =
    elim (Option-cases a.lock) [
      | inr (e, locked) ↦ rw (locked, resolve_conflict) (early (plain e))
      | inl free ↦ elim (Result-cases (check_resolve s project_id conflict_id input)) [
        | inr (e, r) ↦ rw (free, r, resolve_conflict) (early e)
        | inl (c, r) ↦ rw (free, r, resolve_conflict) (late c)
      ]
    ]

module _ (b : Answers) (audit_id' actor' project_id conflict_id : String) (input' : ResolveInput)
    (now later : ℕ) where
  -- The answer is RESOLVED and indexed, and further requests are refused.
  abbrev Settled : Service × Result ConflictQueueEntry → Type 0
  Settled (t, r) =
      (q : ConflictQueueEntry)
      → r ≡ ok q
      → (q.status ≡ "RESOLVED")
        × (q.resolved_at ≡ now)
        × (t.index.conflict_index (trim conflict_id) ≡ some q)
        × ((e : Error) × (resolve_conflict b audit_id' actor' project_id conflict_id input' later t
              ≡ (t, err e)))

  refused_later :
      (t : Service) (q : ConflictQueueEntry)
      → t.index.conflict_index (trim conflict_id) ≡ some q
      → (q.status == "OPEN") ≡ false
      → (e : Error) × (resolve_conflict b audit_id' actor' project_id conflict_id input' later t
          ≡ (t, err e))
  unfolding resolve_conflict
  refused_later t q found closed = elim (Option-cases b.lock) [
    | inr (e, locked) ↦ (plain e, rw (locked, resolve_conflict))
    | inl free ↦
        let (e, r) = closed_refused t project_id conflict_id input' q found closed in
        (e, rw (free, r, resolve_conflict))
  ]

  record_resolved-Settled :
      (audit_id actor : String) (input : ResolveInput) (c : OpenConflict) (s : Service)
      (m : Result (Unit {0}))
      → Settled (
        record_resolved audit_id actor project_id conflict_id c.project
            (resolved actor input now c.conflict)
            now
            s,
        m >>= λ _. ok (resolved actor input now c.conflict),
      )
  unfolding record_resolved resolved
  record_resolved-Settled audit_id actor input c s (err e) q h = absurd (cc h)
  record_resolved-Settled audit_id actor input c s (ok tt) q h =
      let closed = resolved actor input now c.conflict in
      let same = ok-injective h in
      let found = put_self s.index.conflict_index (trim conflict_id) (some closed) ∙ ap some same in
      (
        sym (ap (λ (x : ConflictQueueEntry). x.status) same),
        sym (ap (λ (x : ConflictQueueEntry). x.resolved_at) same),
        found,
        refused_later (record_resolved audit_id actor project_id conflict_id c.project closed now s)
            q found (ap (λ (x : ConflictQueueEntry). x.status == "OPEN") (sym same)),
      )

  -- A success of `ResolveConflictQueueEntry` answers and indexes the conflict as RESOLVED at that
  -- time; and from the state that it leaves every further request to resolve the same conflict is
  -- refused and changes nothing.
  pub resolve_conflict_once :
      (a : Answers) (audit_id actor : String) (input : ResolveInput) (s : Service)
      (q : ConflictQueueEntry)
      → (resolve_conflict a audit_id actor project_id conflict_id input now s).1 ≡ ok q
      → let t = (resolve_conflict a audit_id actor project_id conflict_id input now s).0 in
        (q.status ≡ "RESOLVED")
        × (q.resolved_at ≡ now)
        × (t.index.conflict_index (trim conflict_id) ≡ some q)
        × ((e : Error) × (resolve_conflict b audit_id' actor' project_id conflict_id input' later t
              ≡ (t, err e)))
  unfolding resolve_conflict
  resolve_conflict_once a audit_id actor input s =
      resolve_conflict_cases a audit_id actor project_id conflict_id input now s Settled
        (λ e q h. absurd (cc h))
        (λ c. record_resolved-Settled audit_id actor input c s (persist a.save))

-- Resolving a conflict touches neither tasks nor runs.
pub resolve_conflict-IsSound :
    (a : Answers) (audit_id actor project_id conflict_id : String) (input : ResolveInput) (now : ℕ)
    (s : Service)
    → IsSound s
    → IsSound (resolve_conflict a audit_id actor project_id conflict_id input now s).0
unfolding record_resolved record_audit
resolve_conflict-IsSound a audit_id actor project_id conflict_id input now s inv =
    resolve_conflict_cases a audit_id actor project_id conflict_id input now s (λ x. IsSound x.0)
      (λ e. inv) (λ c. inv)
