-- ===== src/Gate/Base.antt =====
-- Results, rejections and small helpers of apps/server/src/epochguard/effect-gate.ts.
use epochguard.Prelude.{
  ℕ, String, Bool, not, ◌&&◌, ◌||◌, Option, none, List, map, ◌==◌, ◌!=◌, string_eq, nat_eq, is_null,
  filter, find, every, distinct, length, single, Result, ok, ◌>>=◌, ◌>>◌, throw_if, require,
}
use epochguard.Platform.{Platform}
use epochguard.Contract.States.{Role, role_eq}
use epochguard.Contract.RecordStates.{FailureCode, RefreshPlanState, plan_state_eq}
use epochguard.Contract.Records.{
  RoleAgentRegistration, RunAssignment, ResourceVersion, ObservationReceipt, EpochSession,
}
use epochguard.Contract.Database.{DecisionIds, EffectRecord, RefreshPlan, EpochDatabase}
use epochguard.Contract.Errors.{StaleView}
use epochguard.Contract.Schemas.{registration_schema}
use epochguard.Decision.Binding.{frozen_agent_id}
use epochguard.Validator.{active_ids}

-- The REJECTED member of CommitProtectedEffectResult
pub record Rejection : Type 0 where
  pub reason_code : FailureCode
  pub effects_in_session : ℕ
  pub error : Option StaleView

-- CommitProtectedEffectResult
pub data CommitResult : Type 0 where
  committed : Bool → EffectRecord → CommitResult
  rejected : Rejection → CommitResult

-- What leaves the mutation by a throw: AbortEffectCommit, or a Zod error.
pub data GateError : Type 0 where
  aborted : Rejection → GateError
  malformed : GateError

abbrev pub Gated : Type 0 → Type 0
Gated A = Result GateError A

-- The EffectGatePorts that a commit reads: the world's resolver, a fresh Effect id and the time.
pub record GatePorts : Type 0 where
  pub resolve_resource_version : EpochDatabase → ObservationReceipt → Option ResourceVersion
  pub effect_id : String
  pub now : String

abbrev pub rejection : FailureCode → ℕ → GateError
rejection reason n = aborted (record { reason_code = reason; effects_in_session = n; error = none })

-- `if (test) reject(reason, …, n)`
abbrev pub reject_if : Bool → FailureCode → ℕ → Gated (Unit {0})
reject_if test reason n = throw_if test (rejection reason n)

-- requireSingle
abbrev pub require_single : {A : Type 0} → List A → FailureCode → ℕ → Gated A
require_single xs reason n = require (single xs) (rejection reason n)

-- orderedActiveDecisionIds
unfoldable pub ordered_active_ids : EpochSession → ℕ → Gated DecisionIds
ordered_active_ids s n =
    require (active_ids s.active_decision_certificate_ids)
      (rejection FailureCode.decision_invalid n)

-- `ROLES.every((role) => session.activeAttemptIds[role] === null)`
abbrev pub no_active_attempt : EpochSession → Bool
no_active_attempt s =
    is_null s.active_attempt_ids.inventory
    && is_null s.active_attempt_ids.budget
    && is_null s.active_attempt_ids.policy

abbrev pub is_live_plan_of : String → RefreshPlan → Bool
is_live_plan_of session_id plan =
    plan.session_id == session_id
    && (plan.status == RefreshPlanState.available || plan.status == RefreshPlanState.claimed)

abbrev pub is_effect_of : String → EffectRecord → Bool
is_effect_of session_id e = e.session_id == session_id

-- effectScopeCount
unfoldable pub effect_scope_count : EpochDatabase → String → ℕ
effect_scope_count db session_id = length (filter (is_effect_of session_id) db.effects)

-- The map that requireFrozenRoleRegistrations returns.
pub record FrozenRegistrations : Type 0 where
  pub inventory : RoleAgentRegistration
  pub budget : RoleAgentRegistration
  pub policy : RoleAgentRegistration

abbrev pub registration_for : FrozenRegistrations → Role → RoleAgentRegistration
registration_for f Role.inventory = f.inventory
registration_for f Role.budget = f.budget
registration_for f Role.policy = f.policy

module _ (p : Platform) (db : EpochDatabase) (s : EpochSession) (n : ℕ) where
  unfoldable pub frozen_registration : Role → Gated RoleAgentRegistration
  frozen_registration role = do
    r ←
        require (find (λ c. c.role == role) db.role_agent_registrations)
          (rejection FailureCode.decision_invalid n)
    reject_if (r.agent_id != frozen_agent_id s role) FailureCode.decision_invalid n
    ok r

  -- requireFrozenRoleRegistrations
  unfoldable pub frozen_registrations : Gated FrozenRegistrations
  unfolding frozen_registration
  frozen_registrations = do
    let rs = db.role_agent_registrations
    reject_if (length rs != 3) FailureCode.decision_invalid n
    reject_if (not (every (registration_schema p) rs)) FailureCode.decision_invalid n
    reject_if
        (length (distinct (map (λ r. r.role) rs)) != 3
          || length (distinct (map (λ r. r.agent_id) rs)) != 3)
        FailureCode.decision_invalid n
    i ← frozen_registration Role.inventory
    b ← frozen_registration Role.budget
    q ← frozen_registration Role.policy
    let found : FrozenRegistrations = record { inventory = i; budget = b; policy = q }
    ok found

-- requireRegisteredAssignmentProfile
unfoldable pub registered_profile :
    FrozenRegistrations → Role → String → RunAssignment → ℕ → Gated (Unit {0})
registered_profile f role agent a n =
    let r = registration_for f role in
    reject_if
      (r.agent_id != agent
        || a.agent_id != r.agent_id
        || a.role_profile_version != r.role_profile_version
        || a.agents_md_digest != r.agents_md_digest)
      FailureCode.decision_invalid n
