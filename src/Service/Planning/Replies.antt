-- ===== src/Service/Planning/Replies.antt =====
-- internal/service/service.go: what the handlers that plan a project answer, and what they leave.
use multi_agent_com.Base.{
  ℕ, String, ◌≡◌, refl, ap, subst, ◌∙◌, inl, inr, true, false, none, some, List, [], ◌∷◌, snoc,
  put_self, Option-cases,
}
use multi_agent_com.Domain.Task.{Task, created, new_task}
use multi_agent_com.Service.State.{
  Persisted, Service, World, stored, ok, Result-cases, ok-injective, persist, store_result, capture,
  restore,
}
use multi_agent_com.Service.Start.{Backend, in_process, repository, Answers}
use multi_agent_com.Service.Dispatch.{commit}
use multi_agent_com.Service.Contracts.Validation.{
  ContractValidationConflict, validate_contract_definition,
}
use multi_agent_com.Service.Contracts.Matches.{Conforms, validate_contract_definition-Conforms}
use multi_agent_com.Service.Planning.Contracting.{
  ValidateContractInput, ContractValidationResult, Validation, check_validation, remediation_task,
  settle_validation, validate_contract,
}

-- A success of `commit` made the change.
pub commit_ok :
    {A : Type 0} (b : Backend) (a : Answers) (change : Persisted → Persisted) (x y : A)
    (s : Service)
    → (commit b a change x s).1 ≡ ok y
    → (x ≡ y) × ((commit b a change x s).0.data' ≡ change s.data')
unfolding commit persist store_result capture restore
commit_ok in_process a change x y s e = elim (Option-cases a.save) [
  | inl saved ↦ (ok-injective (rw saved at e), refl)
  | inr (m, lost) ↦ absurd (cc (rw lost at e))
]
commit_ok repository a change x y s e = elim (Result-cases (store_result a.repo)) [
  | inl (u, kept) ↦ (ok-injective (rw (commit, kept) at e), rw (commit, kept) refl)
  | inr (m, lost) ↦ absurd (cc (rw (commit, lost) at e))
]

-- The stores accept.
pub record IsAccepting (a : Answers) : Type 0 where
  pub free : a.lock ≡ none
  pub saves : a.save ≡ none
  pub stores : a.repo ≡ stored

pub commit_accepted :
    {A : Type 0} (b : Backend) (a : Answers) (change : Persisted → Persisted) (x : A) (s : Service)
    → IsAccepting a
    → ((commit b a change x s).1 ≡ ok x) × ((commit b a change x s).0.data' ≡ change s.data')
unfolding commit persist store_result capture restore
commit_accepted in_process a change x s h = (rw (h.saves) refl, refl)
commit_accepted repository a change x s h = (rw (h.stores) refl, rw (h.stores) refl)

-- The answer of `ValidateContract`, and the state that it leaves: it passes where the implementation
-- conforms, and nothing changes; or it does not, and there is a new task, CREATED, at the end of the
-- project's order.
pub data Checked (w : World) (project_id : String) (input : ValidateContractInput) (s t : Service)
    (r : ContractValidationResult) : Type 0 where
  passes :
      r.passed ≡ true
      → Conforms w r.contract input.endpoints input.schemas
      → r.remediation_task ≡ none
      → t ≡ s
      → Checked w project_id input s t r
  reworks :
      (task : Task)
      → r.passed ≡ false
      → (¬ Conforms w r.contract input.endpoints input.schemas)
      → r.remediation_task ≡ some task
      → task.status ≡ created
      → t.data'.tasks task.id ≡ some task
      → t.data'.task_order project_id ≡ snoc (s.data'.task_order project_id) task.id
      → Checked w project_id input s t r

settle_validation-Checked :
    (b : Backend) (w : World) (a : Answers) (id project_id : String) (input : ValidateContractInput)
    (v : Validation) (cs : List ContractValidationConflict) (now : ℕ) (s : Service)
    (r : ContractValidationResult)
    → validate_contract_definition w v.contract input.endpoints input.schemas ≡ cs
    → (settle_validation b w a id project_id v cs now s).1 ≡ ok r
    → Checked w project_id input s (settle_validation b w a id project_id v cs now s).0 r
unfolding settle_validation remediation_task new_task
settle_validation-Checked b w a id project_id input v [] now s r found e =
    let same = ok-injective e in
    let conforms =
      validate_contract_definition-Conforms w v.contract input.endpoints input.schemas in
    subst (Checked w project_id input s s) same (passes refl (conforms.0 found) refl refl)
settle_validation-Checked b w a id project_id input v (c ∷ cs) now s r found e =
    let (same, after) = commit_ok b a _ _ r s e in
    let conforms =
      validate_contract_definition-Conforms w v.contract input.endpoints input.schemas in
    subst (Checked w project_id input s _) same (
      reworks (remediation_task w id project_id v.contract now) refl (λ h. cc (conforms.1 h, found))
        refl refl (ap (λ (p : Persisted). p.tasks id) after ∙ put_self s.data'.tasks id _)
        (ap (λ (p : Persisted). p.task_order project_id) after
          ∙ put_self s.data'.task_order project_id _))

-- `ValidateContract`, where it succeeds, says that the contract passed exactly where the endpoints
-- and schemas conform to it, and then changes nothing; else the task that it answers is new and
-- CREATED, and stands at the end of the project's tasks.
pub validate_contract-Checked :
    (b : Backend) (w : World) (a : Answers) (id project_id : String) (input : ValidateContractInput)
    (now : ℕ) (s : Service) (r : ContractValidationResult)
    → (validate_contract b w a id project_id input now s).1 ≡ ok r
    → Checked w project_id input s (validate_contract b w a id project_id input now s).0 r
unfolding validate_contract
validate_contract-Checked b w a id project_id input now s r e =
    elim (Result-cases (check_validation s project_id input)) [
      | inr (m, failed) ↦ absurd (cc (rw (validate_contract, failed) at e))
      | inl (v, good) ↦
          rw (validate_contract, good)
            (settle_validation-Checked b w a id project_id input v _ now s r refl
              (rw (validate_contract, good) at e))
    ]
