-- ===== src/Contract/RecordStates.antt =====
-- The states of the records of apps/server/src/epochguard/types.ts, and its failure codes.
use epochguard.Prelude.{ℕ, ◌≡◌, refl, List, [], ◌∷◌, Eq, eq_by_index, get_or}

pub data AttemptState : Type 0 where
  assignment_created dispatching queued running completed failed interrupted output_rejected
        accepted :
      AttemptState

-- ATTEMPT_STATES: the values in the order of the source.
abbrev pub attempt_states : List AttemptState
attempt_states =
    AttemptState.assignment_created ∷ AttemptState.dispatching ∷ AttemptState.queued
    ∷ AttemptState.running ∷ AttemptState.completed ∷ AttemptState.failed ∷ AttemptState.interrupted
    ∷ AttemptState.output_rejected ∷ AttemptState.accepted ∷ []

abbrev pub attempt_state_index : AttemptState → ℕ
attempt_state_index AttemptState.assignment_created = 0
attempt_state_index AttemptState.dispatching = 1
attempt_state_index AttemptState.queued = 2
attempt_state_index AttemptState.running = 3
attempt_state_index AttemptState.completed = 4
attempt_state_index AttemptState.failed = 5
attempt_state_index AttemptState.interrupted = 6
attempt_state_index AttemptState.output_rejected = 7
attempt_state_index AttemptState.accepted = 8

pub attempt_states-attempt_state_index :
    (a : AttemptState)
    → get_or attempt_states (attempt_state_index a) AttemptState.assignment_created ≡ a
attempt_states-attempt_state_index AttemptState.assignment_created = refl
attempt_states-attempt_state_index _ = refl

instance abbrev pub attempt_state_eq : Eq AttemptState
attempt_state_eq =
    eq_by_index attempt_states attempt_state_index AttemptState.assignment_created
      attempt_states-attempt_state_index

pub data AssignmentState : Type 0 where
  created bound consumed rejected : AssignmentState

-- ASSIGNMENT_STATES: the values in the order of the source.
abbrev pub assignment_states : List AssignmentState
assignment_states =
    AssignmentState.created ∷ AssignmentState.bound ∷ AssignmentState.consumed
    ∷ AssignmentState.rejected ∷ []

abbrev pub assignment_state_index : AssignmentState → ℕ
assignment_state_index AssignmentState.created = 0
assignment_state_index AssignmentState.bound = 1
assignment_state_index AssignmentState.consumed = 2
assignment_state_index AssignmentState.rejected = 3

pub assignment_states-assignment_state_index :
    (a : AssignmentState)
    → get_or assignment_states (assignment_state_index a) AssignmentState.created ≡ a
assignment_states-assignment_state_index AssignmentState.created = refl
assignment_states-assignment_state_index _ = refl

instance abbrev pub assignment_state_eq : Eq AssignmentState
assignment_state_eq =
    eq_by_index assignment_states assignment_state_index AssignmentState.created
      assignment_states-assignment_state_index

pub data DecisionState : Type 0 where
  active superseded : DecisionState

-- DECISION_STATES: the values in the order of the source.
abbrev pub decision_states : List DecisionState
decision_states = DecisionState.active ∷ DecisionState.superseded ∷ []

abbrev pub decision_state_index : DecisionState → ℕ
decision_state_index DecisionState.active = 0
decision_state_index DecisionState.superseded = 1

pub decision_states-decision_state_index :
    (a : DecisionState) → get_or decision_states (decision_state_index a) DecisionState.active ≡ a
decision_states-decision_state_index DecisionState.active = refl
decision_states-decision_state_index _ = refl

instance abbrev pub decision_state_eq : Eq DecisionState
decision_state_eq =
    eq_by_index decision_states decision_state_index DecisionState.active
      decision_states-decision_state_index

pub data ValidationOutcome : Type 0 where
  valid_current_allow consistent_deny no_valid_observed_world_cut historical_but_stale_now failed :
      ValidationOutcome

-- VALIDATION_OUTCOMES: the values in the order of the source.
abbrev pub outcomes : List ValidationOutcome
outcomes =
    ValidationOutcome.valid_current_allow ∷ ValidationOutcome.consistent_deny
    ∷ ValidationOutcome.no_valid_observed_world_cut ∷ ValidationOutcome.historical_but_stale_now
    ∷ ValidationOutcome.failed ∷ []

abbrev pub outcome_index : ValidationOutcome → ℕ
outcome_index ValidationOutcome.valid_current_allow = 0
outcome_index ValidationOutcome.consistent_deny = 1
outcome_index ValidationOutcome.no_valid_observed_world_cut = 2
outcome_index ValidationOutcome.historical_but_stale_now = 3
outcome_index ValidationOutcome.failed = 4

pub outcomes-outcome_index :
    (a : ValidationOutcome)
    → get_or outcomes (outcome_index a) ValidationOutcome.valid_current_allow ≡ a
outcomes-outcome_index ValidationOutcome.valid_current_allow = refl
outcomes-outcome_index _ = refl

instance abbrev pub outcome_eq : Eq ValidationOutcome
outcome_eq =
    eq_by_index outcomes outcome_index ValidationOutcome.valid_current_allow outcomes-outcome_index

pub data PermitState : Type 0 where
  issued consumed revoked : PermitState

-- PERMIT_STATES: the values in the order of the source.
abbrev pub permit_states : List PermitState
permit_states = PermitState.issued ∷ PermitState.consumed ∷ PermitState.revoked ∷ []

abbrev pub permit_state_index : PermitState → ℕ
permit_state_index PermitState.issued = 0
permit_state_index PermitState.consumed = 1
permit_state_index PermitState.revoked = 2

pub permit_states-permit_state_index :
    (a : PermitState) → get_or permit_states (permit_state_index a) PermitState.issued ≡ a
permit_states-permit_state_index PermitState.issued = refl
permit_states-permit_state_index _ = refl

instance abbrev pub permit_state_eq : Eq PermitState
permit_state_eq =
    eq_by_index permit_states permit_state_index PermitState.issued permit_states-permit_state_index

pub data RefreshPlanState : Type 0 where
  available claimed completed invalidated : RefreshPlanState

-- REFRESH_PLAN_STATES: the values in the order of the source.
abbrev pub plan_states : List RefreshPlanState
plan_states =
    RefreshPlanState.available ∷ RefreshPlanState.claimed ∷ RefreshPlanState.completed
    ∷ RefreshPlanState.invalidated ∷ []

abbrev pub plan_state_index : RefreshPlanState → ℕ
plan_state_index RefreshPlanState.available = 0
plan_state_index RefreshPlanState.claimed = 1
plan_state_index RefreshPlanState.completed = 2
plan_state_index RefreshPlanState.invalidated = 3

pub plan_states-plan_state_index :
    (a : RefreshPlanState) → get_or plan_states (plan_state_index a) RefreshPlanState.available ≡ a
plan_states-plan_state_index RefreshPlanState.available = refl
plan_states-plan_state_index _ = refl

instance abbrev pub plan_state_eq : Eq RefreshPlanState
plan_state_eq =
    eq_by_index plan_states plan_state_index RefreshPlanState.available plan_states-plan_state_index

-- FAILURE_CODES
pub data FailureCode : Type 0 where
  role_profile_mismatch agents_busy run_failed run_timeout output_malformed : FailureCode
  binding_mismatch decision_invalid action_hash_mismatch query_hash_mismatch : FailureCode
  history_unverifiable unverifiable_source uncomparable_clocks : FailureCode
  no_valid_observed_world_cut historical_but_stale_now consistent_deny : FailureCode
  unstable_world commit_race already_reobserving stale_view missing_action_fields : FailureCode
  session_not_found unsupported_schema projection_mismatch : FailureCode
