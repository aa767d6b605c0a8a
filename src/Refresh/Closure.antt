-- ===== src/Refresh/Closure.antt =====
-- `assertClaimedPlanClosure` of apps/server/src/epochguard/refresh-planner.ts: what a second
-- request for a claimed plan checks.
use epochguard.Prelude.{
  String, Bool, not, ◌&&◌, ◌||◌, none, some, List, [], ◌∷◌, leb, ◌==◌, ◌!=◌, string_eq, nat_eq,
  option_eq, is_null, filter, includes, length, single, update_first, ok, ◌>>=◌, ◌>>◌, throw_if,
  require, if◌then◌else◌,
}
use epochguard.Platform.{Platform}
use epochguard.Contract.States.{Role, SessionState, role_eq, session_state_eq}
use epochguard.Contract.RecordStates.{
  AttemptState, AssignmentState, RefreshPlanState, attempt_state_eq, assignment_state_eq,
  plan_state_eq,
}
use epochguard.Contract.Action.{build_role_query_spec}
use epochguard.Contract.Records.{RunAssignment, AgentAttempt, EpochSession}
use epochguard.Contract.Database.{RefreshPlan, EpochDatabase}
use epochguard.Contract.Schemas.{assignment_schema, attempt_schema}
use epochguard.Contract.EvidenceSchemas.{plan_schema}
use epochguard.Refresh.{RefreshPorts, Invariant, Planned, invariant, malformed}
use epochguard.Refresh.Plan.{build_refresh_plan}
use epochguard.Refresh.Gather.{fail_if}
use epochguard.Refresh.Claim.{active_validation_binds, plans_agree}

-- activeClaimedState and terminalClaimedState
abbrev pub is_active_claimed : SessionState → Bool
is_active_claimed st = st == SessionState.reobserving || st == SessionState.collecting

abbrev pub is_terminal_claimed : SessionState → Bool
is_terminal_claimed st = st == SessionState.failed || st == SessionState.interrupted

abbrev pub active_attempt_states : List AttemptState
active_attempt_states =
    AttemptState.assignment_created ∷ AttemptState.dispatching ∷ AttemptState.queued
    ∷ AttemptState.running ∷ []

abbrev pub terminal_attempt_states : List AttemptState
terminal_attempt_states =
    AttemptState.failed ∷ AttemptState.interrupted ∷ AttemptState.output_rejected ∷ []

-- attemptLifecycleMatchesSession
abbrev pub lifecycle_matches : EpochSession → AgentAttempt → Bool
lifecycle_matches s t =
    if is_active_claimed s.state
    then includes active_attempt_states t.status
    else includes terminal_attempt_states t.status

-- unboundAssignment and boundAssignment
abbrev pub is_unbound : EpochSession → RunAssignment → AgentAttempt → Bool
is_unbound s a t =
    is_null a.bound_run_id
    && is_null a.bound_at
    && is_null t.run_id
    && (a.status == AssignmentState.created
        || (is_terminal_claimed s.state && a.status == AssignmentState.rejected))

abbrev pub is_bound : EpochSession → RunAssignment → AgentAttempt → Bool
is_bound s a t =
    not (is_null a.bound_run_id)
    && not (is_null a.bound_at)
    && t.run_id == a.bound_run_id
    && (a.status == AssignmentState.bound
        || (is_terminal_claimed s.state && a.status == AssignmentState.rejected))

-- The changes to the clone of the Session.
abbrev pub planning_session : RefreshPlan → EpochSession → EpochSession
planning_session plan s = record s {
  state = SessionState.blocked_no_cut;
  session_revision = plan.base_session_revision;
  active_attempt_ids = record { inventory = none; budget = none; policy = none };
}

module _ (p : Platform) (db : EpochDatabase) where
  unfoldable pub claimed_state_open : EpochSession → RefreshPlan → Bool
  claimed_state_open s plan =
      plan.status != RefreshPlanState.claimed
      || is_null plan.claimed_attempt_id
      || plan.session_id != s.session_id
      || (not (is_active_claimed s.state) && not (is_terminal_claimed s.state))
      || leb s.session_revision plan.base_session_revision
      || s.active_refresh_plan_id != some plan.refresh_plan_id
      || not (is_null s.active_permit_id)
      || not (is_null s.active_attempt_ids.inventory)
      || s.active_attempt_ids.budget != plan.claimed_attempt_id
      || not (is_null s.active_attempt_ids.policy)
      || db.head_seq != plan.validated_head
      || not (active_validation_binds p db s plan)

  -- planningDatabase
  abbrev pub planning_database : EpochSession → RefreshPlan → EpochDatabase
  planning_database s plan = record db {
    sessions = update_first (λ c. c.session_id == s.session_id) (planning_session plan) db.sessions;
  }

  -- The last test, up to the query and from it on.
  unfoldable pub claimed_owner_open : EpochSession → String → AgentAttempt → RunAssignment → Bool
  claimed_owner_open s agent t a =
      length (filter (λ c. c.assignment_id == a.assignment_id) db.attempts) != 1
      || t.session_id != s.session_id
      || t.action_hash != s.action_hash
      || t.role != Role.budget
      || t.agent_id != agent
      || t.assignment_id != a.assignment_id
      || (t.status == AttemptState.accepted && is_null t.output_digest)
      || a.session_id != s.session_id
      || a.action_hash != s.action_hash
      || a.role != Role.budget
      || a.agent_id != agent

  unfoldable pub claimed_lifecycle_open :
      EpochSession → String → AgentAttempt → RunAssignment → Bool
  claimed_lifecycle_open s query_hash t a =
      a.query_hash != query_hash
      || not (is_null a.consumed_at)
      || not (is_null a.consumed_by_decision_certificate_id)
      || not (lifecycle_matches s t)
      || (not (is_unbound s a t) && not (is_bound s a t))

  -- assertClaimedPlanClosure
  unfoldable pub assert_claimed_closure :
      RefreshPorts → EpochSession → RefreshPlan → String → Planned String
  assert_claimed_closure ports s plan agent = do
    fail_if (not (plan_schema p plan)) Invariant.plan_malformed
    fail_if (claimed_state_open s plan) Invariant.claimed_state
    _ ←
        require (single (filter (λ c. c.session_id == s.session_id) db.sessions))
          (invariant Invariant.claimed_session_unique)
    built ← build_refresh_plan p ports (planning_database s plan) plan.refresh_plan_id s.session_id
    fail_if (not (plans_agree plan built)) Invariant.claimed_frozen
    t ←
        require (single (filter (λ c. some c.attempt_id == plan.claimed_attempt_id) db.attempts))
          (invariant Invariant.claimed_attempt_unique)
    throw_if (not (attempt_schema p t)) malformed
    a ←
        require (single (filter (λ c. c.assignment_id == t.assignment_id) db.run_assignments))
          (invariant Invariant.claimed_assignment_unique)
    throw_if (not (assignment_schema p a)) malformed
    fail_if (claimed_owner_open s agent t a) Invariant.claimed_lifecycle
    query ← build_role_query_spec p malformed s.action Role.budget
    fail_if (claimed_lifecycle_open s query.query_hash t a) Invariant.claimed_lifecycle
    ok t.attempt_id
