-- ===== src/Tests/Claims.antt =====
-- A Session whose Budget evidence ends before the head: its plan is built, and claimed.
use epochguard.Prelude.{
  ℕ, zero, suc, ◌+◌, ◌≡◌, refl, String, Bool, true, false, Option, some, none, List, [], ◌∷◌, ◌++◌,
  ok, map, Member, ◌↔◌, ◌≢◌,
}
use epochguard.Contract.States.{Role, roles, SessionState}
use epochguard.Contract.RecordStates.{
  AttemptState, AssignmentState, ValidationOutcome, RefreshPlanState,
}
use epochguard.Contract.Records.{EpochSession}
use epochguard.Contract.Database.{ValidationRecord, NoCutProof, RefreshPlan, EpochDatabase}
use epochguard.Refresh.{
  RefreshClaimArtifacts, RefreshPorts, RefreshEvidenceInterval, claimed, invalidated,
}
use epochguard.Refresh.Claim.{RefreshSessionRequest, plans_agree, ids_reused}
use epochguard.Refresh.Owners.{interval_contains, refresh_set}
use epochguard.Refresh.Plan.{build_refresh_plan}
use epochguard.Refresh.Request.{claimed_plan, write_claim, claim_mutation, claim_refresh_plan}
use epochguard.Refresh.Excluded.{refresh_set-Member}
use epochguard.Refresh.Stale.{IsWarranted, build_refresh_plan-IsWarranted}
use epochguard.Refresh.Once.{IsClaim, claim_once, claim_mutation-IsWarranted}
use epochguard.Store.{EpochStore}
use epochguard.Tests.Fixtures.{
  named, toy, time, digest, ids, History, database, session, validation, version, assignment,
  attempt,
}

abbrev split : History
split = record {
  head = 1;
  from = λ r. elim r [ Role.budget ↦ 0 | _ ↦ 1 ];
  until = λ r. elim r [ Role.budget ↦ some 1 | _ ↦ none ];
}

abbrev blocked : EpochSession
blocked = record session {
  state = SessionState.blocked_no_cut;
  active_permit_id = none;
  active_refresh_plan_id = some "plan1";
}

abbrev conflict : ValidationRecord
conflict = record validation {
  outcome = ValidationOutcome.no_valid_observed_world_cut;
  lower_bound = some 1;
  upper_bound = some 1;
  joint_validity_certificate_id = none;
  no_cut_proof_id = some "proof1";
  refresh_plan_id = some "plan1";
}

abbrev proof : NoCutProof
proof = record {
  proof_id = "proof1";
  validation_id = "val1";
  session_id = "s1";
  action_hash = digest;
  dependency_set_hash = digest;
  decision_certificate_ids = ids;
  validated_at_head = 1;
  lower_bound = 1;
  upper_bound = 1;
  latest_starting_receipt_id = "rc-inventory";
  earliest_ending_receipt_id = "rc-budget";
  conflict_witness_receipt_ids = ("rc-budget", "rc-inventory");
  refresh_agent_ids = "agent-budget" ∷ [];
  created_at = time;
}

abbrev plan : RefreshPlan
plan = record {
  refresh_plan_id = "plan1";
  session_id = "s1";
  base_session_revision = 3;
  validated_head = 1;
  dependency_set_hash = digest;
  active_decision_certificate_ids = "d-inventory" ∷ "d-budget" ∷ "d-policy" ∷ [];
  agent_ids = "agent-budget" ∷ [];
  status = RefreshPlanState.available;
  claimed_attempt_id = none;
}

abbrev before : EpochDatabase
before = record (database split) {
  sessions = blocked ∷ [];
  validations = conflict ∷ [];
  no_cut_proofs = proof ∷ [];
  refresh_plans = plan ∷ [];
}

abbrev made : RefreshClaimArtifacts
made = record {
  assignment = record (assignment Role.budget) {
    assignment_id = "as2";
    receipt_id = "rc2";
    bound_run_id = none;
    status = AssignmentState.created;
    consumed_by_decision_certificate_id = none;
    bound_at = none;
    consumed_at = none;
  };
  attempt = record (attempt Role.budget) {
    attempt_id = "at2";
    assignment_id = "as2";
    run_id = none;
    status = AttemptState.assignment_created;
    run_started_at = none;
    run_completed_at = none;
    output_digest = none;
  };
}

abbrev ports : RefreshPorts
ports = record {
  resolve_resource_version = λ db r. ok (some (version split r.role));
  create_artifacts = λ _. some made;
}

abbrev request : RefreshSessionRequest
request = record { expected_session_revision = 3; refresh_plan_id = "plan1" }

abbrev after : EpochDatabase
after = (write_claim toy ports time before request blocked plan Role.budget "agent-budget" made).1

plan_run : build_refresh_plan toy ports before "plan1" "s1" ≡ ok plan
unfolding build_refresh_plan epochguard.Refresh.Gather.check_session
    epochguard.Refresh.Gather.check_validation epochguard.Refresh.Gather.plan_evidence
    epochguard.Refresh.Gather.role_evidence epochguard.Refresh.Gather.plan_decision
    epochguard.Refresh.Gather.plan_receipt epochguard.Refresh.Gather.plan_version
    epochguard.Refresh.Plan.plan_proof epochguard.Refresh.Plan.proof_open
    epochguard.Refresh.Plan.plan_owners epochguard.Refresh.Gather.latest_start
    epochguard.Refresh.Gather.earliest_end epochguard.Refresh.Gather.latest_starting_id
    epochguard.Refresh.Gather.earliest_ending_id epochguard.Validator.Outcome.list_max
    epochguard.Validator.Outcome.list_min epochguard.Prelude.sort epochguard.Prelude.str_lt
    epochguard.Refresh.same_ordered_ids epochguard.Refresh.Owners.refresh_set
    epochguard.Refresh.Owners.check_evidence epochguard.Refresh.Owners.role_for_agent
    epochguard.Refresh.Owners.require_budget_owner
    epochguard.Contract.EvidenceSchemas.validation_schema
    epochguard.Contract.EvidenceSchemas.no_cut_schema
    epochguard.Contract.EvidenceSchemas.plan_schema epochguard.Contract.Schemas.decision_schema
    epochguard.Contract.Schemas.receipt_schema epochguard.Contract.Schemas.version_schema
    epochguard.Contract.Json.receipt_set_hash epochguard.Contract.Identifiers.is_opaque_id
    epochguard.Contract.Identifiers.is_sha256_digest epochguard.Contract.Action.role_query
    epochguard.Contract.Identifiers.is_short_text
plan_run = refl

claim_run :
    claim_mutation toy ports time before request "s1"
    ≡ ok (
      claimed Role.budget "agent-budget" (claimed_plan "at2" plan) made.assignment made.attempt,
      after,
    )
unfolding claim_mutation epochguard.Refresh.Request.claim_plan epochguard.Refresh.Request.claim_open
    epochguard.Refresh.Request.claim_owned epochguard.Refresh.Request.claim_available
    epochguard.Refresh.Request.take_plan epochguard.Refresh.Claim.plan_still_matches
    epochguard.Refresh.Claim.active_validation_binds epochguard.Refresh.Claim.assert_claim_artifacts
    epochguard.Refresh.Claim.assignment_unfit epochguard.Refresh.Claim.attempt_unfit
    epochguard.Refresh.Claim.ids_reused epochguard.Contract.Action.build_role_query_spec
    epochguard.Contract.Schemas.assignment_schema epochguard.Contract.Schemas.attempt_schema
    epochguard.Contract.Paths.is_evidence_pack_path build_refresh_plan
    epochguard.Refresh.Gather.check_session epochguard.Refresh.Gather.check_validation
    epochguard.Refresh.Gather.plan_evidence epochguard.Refresh.Gather.role_evidence
    epochguard.Refresh.Gather.plan_decision epochguard.Refresh.Gather.plan_receipt
    epochguard.Refresh.Gather.plan_version epochguard.Refresh.Plan.plan_proof
    epochguard.Refresh.Plan.proof_open epochguard.Refresh.Plan.plan_owners
    epochguard.Refresh.Gather.latest_start epochguard.Refresh.Gather.earliest_end
    epochguard.Refresh.Gather.latest_starting_id epochguard.Refresh.Gather.earliest_ending_id
    epochguard.Validator.Outcome.list_max epochguard.Validator.Outcome.list_min
    epochguard.Prelude.sort epochguard.Prelude.str_lt epochguard.Refresh.same_ordered_ids
    epochguard.Refresh.Owners.refresh_set epochguard.Refresh.Owners.check_evidence
    epochguard.Refresh.Owners.role_for_agent epochguard.Refresh.Owners.require_budget_owner
    epochguard.Contract.EvidenceSchemas.validation_schema
    epochguard.Contract.EvidenceSchemas.no_cut_schema
    epochguard.Contract.EvidenceSchemas.plan_schema epochguard.Contract.Schemas.decision_schema
    epochguard.Contract.Schemas.receipt_schema epochguard.Contract.Schemas.version_schema
    epochguard.Contract.Json.receipt_set_hash epochguard.Contract.Identifiers.is_short_text
    epochguard.Contract.Action.action_fields_schema
claim_run = refl

abbrev interval : Role → RefreshEvidenceInterval
interval r = record {
  role = r;
  agent_id = named "agent" r;
  from = split.from r;
  until = split.until r;
}

abbrev intervals : List RefreshEvidenceInterval
intervals = map interval roles

selected : refresh_set 1 intervals ≡ ok ("agent-budget" ∷ [])
unfolding refresh_set epochguard.Refresh.Owners.check_evidence
selected = refl

refresh_set-Member_example :
    ((i : RefreshEvidenceInterval)
      → Member i intervals
      → (Member i.agent_id ("agent-budget" ∷ []) ↔ (interval_contains 1 i ≡ false)))
    × ((a : String)
        → Member a ("agent-budget" ∷ [])
        → (i : RefreshEvidenceInterval) × Member i intervals × (a ≡ i.agent_id))
refresh_set-Member_example = refresh_set-Member 1 intervals ("agent-budget" ∷ []) selected

build_refresh_plan-IsWarranted_example : IsWarranted toy ports before "s1" plan
build_refresh_plan-IsWarranted_example =
    build_refresh_plan-IsWarranted toy ports before "plan1" "s1" plan plan_run

claim_once_example :
    claim_mutation toy ports time after
      (record { expected_session_revision = 4; refresh_plan_id = "plan1" })
      "s1"
    ≢ ok (
      claimed Role.budget "agent-budget" (claimed_plan "at2" plan) made.assignment made.attempt,
      after,
    )
claim_once_example =
    claim_once toy ports time before request "s1" Role.budget "agent-budget"
      (claimed_plan "at2" plan) made.assignment made.attempt after claim_run ports time
      (record { expected_session_revision = 4; refresh_plan_id = "plan1" })
      (
        claimed Role.budget "agent-budget" (claimed_plan "at2" plan) made.assignment made.attempt,
        after,
      )

claim_mutation-IsWarranted_example :
    IsClaim toy ports time before request "s1" Role.budget "agent-budget"
      (claimed_plan "at2" plan)
      made.assignment
      made.attempt
      after
claim_mutation-IsWarranted_example =
    claim_mutation-IsWarranted toy ports time before request "s1" Role.budget "agent-budget"
      (claimed_plan "at2" plan) made.assignment made.attempt after claim_run

-- The Session is bound to another plan, so the request finds its plan outdated.
abbrev unbound : EpochSession
unbound = record blocked { active_refresh_plan_id = none }

abbrev outdated : EpochDatabase
outdated = record before { sessions = unbound ∷ [] }

drop_run :
    claim_mutation toy ports time outdated request "s1"
    ≡ ok (
      invalidated "plan1" 4,
      record outdated {
        sessions =
            record unbound {
              active_permit_id = none;
              state = SessionState.unstable_world;
              session_revision = 4;
              state_updated_at = time;
            }
            ∷ [];
        refresh_plans = record plan { status = RefreshPlanState.invalidated } ∷ [];
      },
    )
unfolding claim_mutation epochguard.Refresh.Request.claim_plan epochguard.Refresh.Request.claim_open
    epochguard.Refresh.Request.claim_owned epochguard.Refresh.Request.claim_available
    epochguard.Refresh.Request.invalidate epochguard.Refresh.Owners.require_budget_owner
drop_run = refl

abbrev store : EpochStore
store = record { data_now = outdated; file = none }

drop_told :
    (claim_refresh_plan toy ports store "s1" request time true).0 ≡ ok (invalidated "plan1" 4)
unfolding claim_refresh_plan epochguard.Store.mutate epochguard.Store.publish
    epochguard.Refresh.Claim.request_schema epochguard.Contract.Identifiers.is_opaque_id
    epochguard.Contract.EvidenceSchemas.database_schema
    epochguard.Contract.Schemas.registration_schema epochguard.Contract.Identifiers.is_short_text
    epochguard.Contract.Identifiers.is_sha256_digest epochguard.Contract.Schemas.version_schema
    epochguard.Contract.Action.query_schema epochguard.Contract.Action.role_query
    epochguard.Contract.Schemas.assignment_schema epochguard.Contract.Paths.is_evidence_pack_path
    epochguard.Contract.Schemas.receipt_schema epochguard.Contract.Schemas.session_schema
    epochguard.Contract.Action.action_schema epochguard.Contract.Schemas.attempt_schema
    epochguard.Contract.Schemas.decision_schema
    epochguard.Contract.EvidenceSchemas.validation_schema
    epochguard.Contract.EvidenceSchemas.certificate_schema
    epochguard.Contract.EvidenceSchemas.no_cut_schema
    epochguard.Contract.EvidenceSchemas.plan_schema
    epochguard.Contract.EvidenceSchemas.permit_schema
drop_told = rw drop_run refl
