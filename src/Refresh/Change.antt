-- ===== src/Refresh/Change.antt =====
-- The whole of `claimRefreshPlan` in apps/server/src/epochguard/refresh-planner.ts: what it changes
-- in a store.
use epochguard.Prelude.{
  ◌+◌, ◌==◌, string_eq, some, none, filter, String, ◌≡◌, [], ◌∷◌, ◌++◌, ok, Result,
}
use epochguard.Platform.{Platform}
use epochguard.Contract.States.{Role, SessionState}
use epochguard.Contract.RecordStates.{RefreshPlanState}
use epochguard.Contract.Records.{RunAssignment, AgentAttempt, EpochSession, with_role_id}
use epochguard.Contract.Database.{RefreshPlan, EpochDatabase}
use epochguard.Store.{EpochStore, StoreError}
use epochguard.Refresh.{ClaimRefreshPlanResult, claimed, invalidated, PlannerError}
use epochguard.Refresh.Outcome.{Outcome}

-- A claim writes Sessions, RefreshPlans, Assignments and Attempts, and nothing else.
pub record IsUntouched (before after : EpochDatabase) : Type 0 where
  pub head : after.head_seq ≡ before.head_seq
  pub versions : after.resource_versions ≡ before.resource_versions
  pub commits : after.world_commits ≡ before.world_commits
  pub receipts : after.receipts ≡ before.receipts
  pub decisions : after.decisions ≡ before.decisions
  pub validations : after.validations ≡ before.validations
  pub certificates : after.joint_validity_certificates ≡ before.joint_validity_certificates
  pub permits : after.permits ≡ before.permits
  pub effects : after.effects ≡ before.effects

-- The Session and its plan before a write, and what the write makes of them.
pub record IsWritten (session_id : String) (before after : EpochDatabase) (s s' : EpochSession)
    (plan plan' : RefreshPlan) : Type 0 where
  pub only_session : filter (λ c. c.session_id == session_id) before.sessions ≡ s ∷ []
  pub only_plan : filter (λ c. c.session_id == s.session_id) before.refresh_plans ≡ plan ∷ []
  pub session : filter (λ c. c.session_id == session_id) after.sessions ≡ s' ∷ []
  pub plan_after : filter (λ c. c.session_id == s.session_id) after.refresh_plans ≡ plan' ∷ []

-- A store before and after, and what the caller is told.
pub data ClaimChange (session_id now : String) (store : EpochStore)
    (r : Result (StoreError PlannerError) ClaimRefreshPlanResult) (store' : EpochStore)
    : Type 0 where
  took :
      (s : EpochSession) (plan : RefreshPlan) (role : Role) (agent : String) (a : RunAssignment)
      (t : AgentAttempt)
      → r
        ≡ ok (
            claimed role agent
              (record plan {
                status = RefreshPlanState.claimed;
                claimed_attempt_id = some t.attempt_id;
              })
              a
              t)
      → IsWritten session_id store.data_now store'.data_now s
          (record s {
            active_attempt_ids = with_role_id role (some t.attempt_id) s.active_attempt_ids;
            state = SessionState.reobserving;
            session_revision = s.session_revision + 1;
            state_updated_at = now;
          })
          plan
          (record plan {
            status = RefreshPlanState.claimed;
            claimed_attempt_id = some t.attempt_id;
          })
      → store'.data_now.run_assignments ≡ store.data_now.run_assignments ++ a ∷ []
      → store'.data_now.attempts ≡ store.data_now.attempts ++ t ∷ []
      → IsUntouched store.data_now store'.data_now
      → ClaimChange session_id now store r store'
  dropped :
      (s : EpochSession) (plan : RefreshPlan)
      → r ≡ ok (invalidated plan.refresh_plan_id (s.session_revision + 1))
      → IsWritten session_id store.data_now store'.data_now s
          (record s {
            active_refresh_plan_id = none;
            active_permit_id = none;
            state = SessionState.unstable_world;
            session_revision = s.session_revision + 1;
            state_updated_at = now;
          })
          plan
          (record plan { status = RefreshPlanState.invalidated; claimed_attempt_id = none })
      → store'.data_now.run_assignments ≡ store.data_now.run_assignments
      → store'.data_now.attempts ≡ store.data_now.attempts
      → IsUntouched store.data_now store'.data_now
      → ClaimChange session_id now store r store'
  kept : store' ≡ store → ClaimChange session_id now store r store'
