-- ===== src/Gate/Plans.antt =====
-- `validateCompletedRefreshPlanClosure` in apps/server/src/epochguard/effect-gate.ts: a Validation
-- that follows a refresh closes over the completed RefreshPlan.
use epochguard.Prelude.{
  ℕ, String, Bool, false, not, ◌&&◌, ◌||◌, Option, none, some, List, [], ◌∷◌, leb, ◌==◌, ◌!=◌,
  string_eq, nat_eq, option_eq, is_null, filter, distinct, length, ok, ◌>>=◌, ◌>>◌, require,
}
use epochguard.Platform.{Platform}
use epochguard.Contract.Json.{receipt_set_hash}
use epochguard.Contract.States.{Role, role_eq}
use epochguard.Contract.RecordStates.{
  FailureCode, RefreshPlanState, DecisionState, AttemptState, plan_state_eq, decision_state_eq,
  attempt_state_eq,
}
use epochguard.Contract.Records.{DependencyCertificate, EpochSession}
use epochguard.Contract.Database.{DecisionIds, ValidationRecord, EpochDatabase}
use epochguard.Contract.Schemas.{decision_schema, attempt_schema}
use epochguard.Contract.EvidenceSchemas.{plan_schema}
use epochguard.Decision.Binding.{frozen_agent_id}
use epochguard.Gate.Base.{Gated, rejection, reject_if, require_single, ordered_active_ids}

-- A tuple of three ids, of a list of that length.
abbrev pub three_ids : List String → Option DecisionIds
three_ids (i ∷ b ∷ q ∷ []) = some (record { inventory = i; budget = b; policy = q })
three_ids _ = none

-- `sameOrderedIds(plan.agentIds, [id])`
abbrev pub is_only : String → List String → Bool
is_only id (x ∷ []) = x == id
is_only id _ = false

module _ (p : Platform) (db : EpochDatabase) (s : EpochSession) (hash : String) (n : ℕ) where
  -- The loop body for one role, once the schema of the Decision has passed.
  abbrev pub closes_over : Role → String → String → DependencyCertificate → Bool
  closes_over Role.budget prior current d =
      d.status == DecisionState.superseded && d.superseded_by_certificate_id == some current
  closes_over _ prior current d =
      prior == current && d.status == DecisionState.active && is_null d.superseded_by_certificate_id

  unfoldable pub prior_decision : Role → String → String → Gated DependencyCertificate
  prior_decision role prior current = do
    d ←
        require_single (filter (λ c. c.certificate_id == prior) db.decisions)
          FailureCode.binding_mismatch n
    reject_if (not (decision_schema p d)) FailureCode.binding_mismatch n
    reject_if
        (d.session_id != s.session_id
          || d.action_hash != hash
          || d.role != role
          || d.agent_id != frozen_agent_id s role
          || not (closes_over role prior current d))
        FailureCode.binding_mismatch n
    ok d

  unfoldable pub prior_receipts : DecisionIds → DecisionIds → Gated (List String)
  unfolding prior_decision
  prior_receipts prior current = do
    i ← prior_decision Role.inventory prior.inventory current.inventory
    b ← prior_decision Role.budget prior.budget current.budget
    q ← prior_decision Role.policy prior.policy current.policy
    ok (i.receipt_id ∷ b.receipt_id ∷ q.receipt_id ∷ [])

  -- The Attempt that claimed the plan produced the current Budget Decision.
  unfoldable pub claimed_attempt : Option String → String → Gated (Unit {0})
  claimed_attempt claimed current = do
    t ←
        require_single (filter (λ c. some c.attempt_id == claimed) db.attempts)
          FailureCode.binding_mismatch n
    d ←
        require_single (filter (λ c. c.certificate_id == current) db.decisions)
          FailureCode.binding_mismatch n
    reject_if (not (attempt_schema p t) || not (decision_schema p d)) FailureCode.binding_mismatch n
    reject_if
        (t.status != AttemptState.accepted
          || is_null t.output_digest
          || t.session_id != s.session_id
          || t.action_hash != hash
          || t.role != Role.budget
          || t.agent_id != s.frozen_assignments.budget_agent_id
          || t.assignment_id != d.run_assignment_id
          || t.run_id != some d.run_id)
        FailureCode.binding_mismatch n

  -- The plan that a Validation names.
  unfoldable pub plan_closure : ValidationRecord → String → Gated (Unit {0})
  unfolding prior_receipts claimed_attempt ordered_active_ids
  plan_closure v id = do
    reject_if (s.active_refresh_plan_id != some id) FailureCode.binding_mismatch n
    plan ←
        require_single (filter (λ c. c.refresh_plan_id == id) db.refresh_plans)
          FailureCode.binding_mismatch n
    reject_if (not (plan_schema p plan)) FailureCode.binding_mismatch n
    prior ←
        require (three_ids plan.active_decision_certificate_ids)
          (rejection FailureCode.binding_mismatch n)
    current ← ordered_active_ids s n
    reject_if
        (plan.status != RefreshPlanState.completed
          || is_null plan.claimed_attempt_id
          || plan.session_id != s.session_id
          || leb v.base_session_revision plan.base_session_revision
          || leb s.session_revision v.base_session_revision
          || plan.validated_head != v.validated_head
          || not (is_only s.frozen_assignments.budget_agent_id plan.agent_ids)
          || prior.inventory != current.inventory
          || prior.policy != current.policy
          || prior.budget == current.budget)
        FailureCode.binding_mismatch n
    receipts ← prior_receipts prior current
    reject_if
        (length (distinct plan.active_decision_certificate_ids) != 3
          || length (distinct receipts) != 3
          || receipt_set_hash p receipts != plan.dependency_set_hash)
        FailureCode.binding_mismatch n
    claimed_attempt plan.claimed_attempt_id current.budget

  abbrev pub plan_closure_of : ValidationRecord → Option String → Gated (Unit {0})
  plan_closure_of v none =
      reject_if (not (is_null s.active_refresh_plan_id)) FailureCode.binding_mismatch n
  plan_closure_of v (some id) = plan_closure v id

  -- validateCompletedRefreshPlanClosure
  unfoldable pub completed_plan_closure : ValidationRecord → Gated (Unit {0})
  unfolding plan_closure
  completed_plan_closure v = plan_closure_of v v.refresh_plan_id
