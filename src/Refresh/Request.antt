-- ===== src/Refresh/Request.antt =====
-- `claimRefreshPlan` of apps/server/src/epochguard/refresh-planner.ts: the mutation, and the whole
-- operation with the parse of the request before it and the catch of AbortRefreshClaim after it.
use epochguard.Prelude.{
  ◌+◌, String, Bool, not, ◌&&◌, ◌||◌, none, some, List, [], ◌∷◌, ◌++◌, ◌==◌, ◌!=◌, string_eq,
  nat_eq, option_eq, is_null, filter, length, update_first, Result, ok, err, ◌>>=◌, ◌>>◌, throw_if,
  require, if◌then◌else◌,
}
use epochguard.Platform.{Platform}
use epochguard.Contract.States.{Role, SessionState, role_eq, session_state_eq}
use epochguard.Contract.RecordStates.{RefreshPlanState, plan_state_eq}
use epochguard.Contract.Records.{EpochSession, role_id, with_role_id}
use epochguard.Contract.Database.{RefreshPlan, EpochDatabase}
use epochguard.Contract.Errors.{
  StaleView, AlreadyReobserving, stale_view_schema, already_reobserving_schema,
}
use epochguard.Store.{EpochStore, StoreError, thrown, mutate}
use epochguard.Refresh.{
  RefreshClaimArtifacts, RefreshClaimArtifactContext, ClaimRefreshPlanResult, claimed,
  already_reobserving, stale_view, invalidated, RefreshPorts, Invariant, PlannerError, Planned,
  invariant, malformed, port_failed, aborted,
}
use epochguard.Refresh.Owners.{role_for_agent, require_budget_owner}
use epochguard.Refresh.Gather.{fail_if}
use epochguard.Refresh.Claim.{
  RefreshSessionRequest, request_schema, plan_still_matches, assert_claim_artifacts,
}
use epochguard.Refresh.Closure.{assert_claimed_closure}

abbrev pub Claiming : Type 0
Claiming = Planned (ClaimRefreshPlanResult × EpochDatabase)

-- `matches[0]` with a message for no match and one for several.
abbrev pub exactly_one : {A : Type 0} → Invariant → Invariant → List A → Planned A
exactly_one absent several [] = err (invariant absent)
exactly_one absent several (x ∷ []) = ok x
exactly_one absent several _ = err (invariant several)

abbrev pub is_plan_of : String → RefreshPlan → Bool
is_plan_of session_id plan = plan.session_id == session_id

abbrev pub is_requested : String → String → RefreshPlan → Bool
is_requested plan_id session_id plan =
    plan.refresh_plan_id == plan_id && plan.session_id == session_id

abbrev pub is_session : String → EpochSession → Bool
is_session id s = s.session_id == id

abbrev pub invalid_plan : RefreshPlan → RefreshPlan
invalid_plan plan = record plan { status = RefreshPlanState.invalidated; claimed_attempt_id = none }

abbrev pub claimed_plan : String → RefreshPlan → RefreshPlan
claimed_plan attempt plan = record plan {
  status = RefreshPlanState.claimed;
  claimed_attempt_id = some attempt;
}

module _ (p : Platform) (ports : RefreshPorts) (now : String) (db : EpochDatabase)
    (request : RefreshSessionRequest) where
  -- `throw new AbortRefreshClaim({ status: "STALE_VIEW", … })`
  unfoldable pub abort_stale : EpochSession → Claiming
  abort_stale s =
      let body : StaleView = record {
        session_id = s.session_id;
        expected_session_revision = request.expected_session_revision;
        actual_session_revision = s.session_revision;
      } in
      if stale_view_schema body then err (aborted (stale_view body)) else err malformed

  -- The branch of a plan that is CLAIMED.
  unfoldable pub answer_claimed : EpochSession → RefreshPlan → String → Claiming
  answer_claimed s plan agent = do
    attempt ← assert_claimed_closure p db ports s plan agent
    let body : AlreadyReobserving = record {
      session_id = s.session_id;
      refresh_plan_id = plan.refresh_plan_id;
      attempt_id = attempt;
    }
    throw_if (not (already_reobserving_schema body)) malformed
    err (aborted (already_reobserving body))

  -- The updates change the objects that the filters have found in the database.
  abbrev pub unstable_session : EpochSession → EpochSession
  unstable_session s = record s {
    active_refresh_plan_id = none;
    active_permit_id = none;
    state = SessionState.unstable_world;
    session_revision = s.session_revision + 1;
    state_updated_at = now;
  }

  -- The branch of a plan that no longer matches.
  unfoldable pub invalidate : EpochSession → RefreshPlan → ClaimRefreshPlanResult × EpochDatabase
  invalidate s plan = (
    invalidated plan.refresh_plan_id (s.session_revision + 1),
    record db {
      refresh_plans =
          update_first (is_requested plan.refresh_plan_id s.session_id) invalid_plan
            db.refresh_plans;
      sessions = update_first (is_session s.session_id) unstable_session db.sessions;
    },
  )

  abbrev pub reobserving_session : Role → String → EpochSession → EpochSession
  reobserving_session role attempt s = record s {
    active_attempt_ids = with_role_id role (some attempt) s.active_attempt_ids;
    state = SessionState.reobserving;
    session_revision = s.session_revision + 1;
    state_updated_at = now;
  }

  -- The writes of a claim, and its result.
  abbrev pub write_claim :
      EpochSession
      → RefreshPlan
      → Role
      → String
      → RefreshClaimArtifacts
      → ClaimRefreshPlanResult × EpochDatabase
  write_claim s plan role agent made = (
    claimed role agent (claimed_plan made.attempt.attempt_id plan) made.assignment made.attempt,
    record db {
      run_assignments = db.run_assignments ++ made.assignment ∷ [];
      attempts = db.attempts ++ made.attempt ∷ [];
      refresh_plans =
          update_first (is_requested plan.refresh_plan_id s.session_id)
            (claimed_plan made.attempt.attempt_id) db.refresh_plans;
      sessions =
          update_first (is_session s.session_id) (reobserving_session role made.attempt.attempt_id)
            db.sessions;
    },
  )

  -- The branch of a plan that still matches.
  unfoldable pub take_plan : EpochSession → RefreshPlan → String → Claiming
  take_plan s plan agent = do
    role ← role_for_agent s agent
    fail_if (not (is_null (role_id s.active_attempt_ids role))) Invariant.attempt_active
    let context : RefreshClaimArtifactContext = record {
      session = s;
      plan = plan;
      role = role;
      agent_id = agent;
    }
    offered ← require (ports.create_artifacts context) port_failed
    made ← assert_claim_artifacts p db s role agent offered
    ok (write_claim s plan role agent made)

  abbrev pub is_outdated : EpochSession → RefreshPlan → Bool
  is_outdated s plan =
      plan.status != RefreshPlanState.available
      || s.active_refresh_plan_id != some plan.refresh_plan_id
      || not (plan_still_matches p db ports s plan)

  -- The plan is not CLAIMED: the compare-and-set on the Session's revision, and what follows.
  unfoldable pub claim_available : EpochSession → RefreshPlan → String → Claiming
  claim_available s plan agent =
      if request.expected_session_revision != s.session_revision
      then abort_stale s
      else if is_outdated s plan
      then ok (invalidate s plan)
      else take_plan s plan agent

  abbrev pub is_closed : RefreshPlan → Bool
  is_closed plan =
      plan.status == RefreshPlanState.completed || plan.status == RefreshPlanState.invalidated

  -- What follows once the owner is known.
  unfoldable pub claim_owned : EpochSession → RefreshPlan → String → Claiming
  claim_owned s plan agent =
      if plan.status == RefreshPlanState.claimed
      then answer_claimed s plan agent
      else claim_available s plan agent

  unfoldable pub claim_open : EpochSession → RefreshPlan → Claiming
  claim_open s plan = do agent ← require_budget_owner s plan.agent_ids; claim_owned s plan agent

  unfoldable pub claim_plan : EpochSession → RefreshPlan → Claiming
  claim_plan s plan = if is_closed plan then abort_stale s else claim_open s plan

  -- The mutation that claimRefreshPlan passes to the store.
  unfoldable pub claim_mutation : String → Claiming
  claim_mutation session_id = do
    s ←
        exactly_one Invariant.session_missing Invariant.session_unique
          (filter (is_session session_id) db.sessions)
    plan ← exactly_one Invariant.plan_missing Invariant.plan_unique (
        filter (is_requested request.refresh_plan_id s.session_id)
          (filter (is_plan_of s.session_id) db.refresh_plans))
    fail_if (length (filter (is_plan_of s.session_id) db.refresh_plans) != 1) Invariant.one_plan
    claim_plan s plan

-- `if (error instanceof AbortRefreshClaim) return error.result; throw error`
abbrev pub catch_claim :
    Result (StoreError PlannerError) ClaimRefreshPlanResult
    → Result (StoreError PlannerError) ClaimRefreshPlanResult
catch_claim (err (thrown (aborted r))) = ok r
catch_claim r = r

module _ (p : Platform) (ports : RefreshPorts) where
  -- claimRefreshPlan; `written` is as in the store's mutate.
  unfoldable pub claim_refresh_plan :
      EpochStore
      → String
      → RefreshSessionRequest
      → String
      → Bool
      → Result (StoreError PlannerError) ClaimRefreshPlanResult × EpochStore
  claim_refresh_plan store session_id request now written =
      if p.is_datetime now && request_schema request
      then (let settled =
            mutate p store (λ db. claim_mutation p ports now db request session_id) written in
          (catch_claim settled.0, settled.1))
      else (err (thrown malformed), store)
