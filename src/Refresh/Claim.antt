-- ===== src/Refresh/Claim.antt =====
-- The claim of a RefreshPlan, `claimRefreshPlan` and its guards in
-- apps/server/src/epochguard/refresh-planner.ts.
use epochguard.Prelude.{
  ℕ, ◌+◌, String, Bool, false, not, ◌&&◌, ◌||◌, none, some, ◌==◌, ◌!=◌, string_eq, nat_eq,
  option_eq, is_null, filter, any, single, ok, err, ◌>>=◌, ◌>>◌, throw_if,
}
use epochguard.Platform.{Platform}
use epochguard.Contract.Identifiers.{is_opaque_id, is_safe}
use epochguard.Contract.States.{Role, role_eq, session_state_eq}
use epochguard.Contract.RecordStates.{
  AttemptState, AssignmentState, RefreshPlanState, attempt_state_eq, assignment_state_eq,
  plan_state_eq,
}
use epochguard.Contract.Action.{build_role_query_spec}
use epochguard.Contract.Records.{RunAssignment, AgentAttempt, EpochSession}
use epochguard.Contract.Database.{RefreshPlan, EpochDatabase}
use epochguard.Contract.Schemas.{assignment_schema, attempt_schema}
use epochguard.Contract.EvidenceSchemas.{validation_schema}
use epochguard.Refresh.{
  RefreshClaimArtifacts, RefreshPorts, Invariant, Planned, malformed, same_ordered_ids,
}
use epochguard.Refresh.Plan.{build_refresh_plan}
use epochguard.Refresh.Gather.{fail_if}

-- RefreshSessionRequest
pub record RefreshSessionRequest : Type 0 where
  pub expected_session_revision : ℕ
  pub refresh_plan_id : String

-- RefreshSessionRequestSchema
unfoldable pub request_schema : RefreshSessionRequest → Bool
request_schema r = is_safe r.expected_session_revision && is_opaque_id r.refresh_plan_id

-- The fields in which a plan must agree with the one built anew.
abbrev pub plans_agree : RefreshPlan → RefreshPlan → Bool
plans_agree plan built =
    plan.base_session_revision == built.base_session_revision
    && plan.validated_head == built.validated_head
    && plan.dependency_set_hash == built.dependency_set_hash
    && same_ordered_ids plan.active_decision_certificate_ids built.active_decision_certificate_ids
    && same_ordered_ids plan.agent_ids built.agent_ids

module _ (p : Platform) (db : EpochDatabase) where
  -- activeValidationBindsPlan
  unfoldable pub active_validation_binds : EpochSession → RefreshPlan → Bool
  active_validation_binds s plan =
      elim (single (filter (λ c. some c.validation_id == s.active_validation_id) db.validations)) [
        | none ↦ false
        | some v ↦
            validation_schema p v
            && v.session_id == s.session_id
            && v.refresh_plan_id == some plan.refresh_plan_id
            && v.base_session_revision + 1 == plan.base_session_revision
      ]

  abbrev pub agrees_with_built : RefreshPlan → Planned RefreshPlan → Bool
  agrees_with_built plan (err _) = false
  agrees_with_built plan (ok built) = plan.session_id == built.session_id && plans_agree plan built

  -- planStillMatches: what it catches is a `false`.
  unfoldable pub plan_still_matches : RefreshPorts → EpochSession → RefreshPlan → Bool
  plan_still_matches ports s plan =
      plan.status == RefreshPlanState.available
      && is_null plan.claimed_attempt_id
      && active_validation_binds s plan
      && agrees_with_built plan (build_refresh_plan p ports db plan.refresh_plan_id s.session_id)

  -- The tests of assertClaimArtifacts
  unfoldable pub assignment_unfit : EpochSession → Role → String → String → RunAssignment → Bool
  assignment_unfit s role agent query_hash a =
      a.session_id != s.session_id
      || a.action_hash != s.action_hash
      || a.agent_id != agent
      || a.role != role
      || a.status != AssignmentState.created
      || a.query_hash != query_hash
      || not (is_null a.bound_run_id)
      || not (is_null a.bound_at)
      || not (is_null a.consumed_at)
      || not (is_null a.consumed_by_decision_certificate_id)

  unfoldable pub attempt_unfit : EpochSession → Role → String → RunAssignment → AgentAttempt → Bool
  attempt_unfit s role agent a t =
      t.session_id != s.session_id
      || t.action_hash != s.action_hash
      || t.agent_id != agent
      || t.role != role
      || t.assignment_id != a.assignment_id
      || t.status != AttemptState.assignment_created
      || not (is_null t.run_id)
      || not (is_null t.run_started_at)
      || not (is_null t.run_completed_at)

  unfoldable pub ids_reused : RunAssignment → AgentAttempt → Bool
  ids_reused a t =
      any (λ c. c.assignment_id == a.assignment_id || c.receipt_id == a.receipt_id)
        db.run_assignments
      || any (λ c. c.receipt_id == a.receipt_id) db.receipts
      || any (λ c. c.attempt_id == t.attempt_id) db.attempts

  -- assertClaimArtifacts
  unfoldable pub assert_claim_artifacts :
      EpochSession → Role → String → RefreshClaimArtifacts → Planned RefreshClaimArtifacts
  assert_claim_artifacts s role agent made = do
    throw_if (not (assignment_schema p made.assignment)) malformed
    throw_if (not (attempt_schema p made.attempt)) malformed
    query ← build_role_query_spec p malformed s.action role
    fail_if (assignment_unfit s role agent query.query_hash made.assignment)
        Invariant.artifact_assignment
    fail_if (attempt_unfit s role agent made.assignment made.attempt) Invariant.artifact_attempt
    fail_if (ids_reused made.assignment made.attempt) Invariant.artifact_reused
    ok made
