-- ===== src/Refresh.antt =====
-- The refresh planner, apps/server/src/epochguard/refresh-planner.ts: its types and errors. The
-- operations and the proofs are in the modules below.
pub mod Warrant
pub mod Once
pub mod Written
pub mod Agreed
pub mod Change
pub mod Outcome
pub mod Stale
pub mod Excluded
pub mod Bindings
pub mod Evidence
pub mod Owners
pub mod Plan
pub mod Gather
pub mod Request
pub mod Closure
pub mod Claim
use epochguard.Prelude.{
  ℕ, String, Bool, true, false, ◌&&◌, Option, List, [], ◌∷◌, ◌==◌, string_eq, Result,
}
use epochguard.Contract.States.{Role}
use epochguard.Contract.Records.{
  RunAssignment, AgentAttempt, ResourceVersion, ObservationReceipt, EpochSession,
}
use epochguard.Contract.Database.{RefreshPlan, EpochDatabase}
use epochguard.Contract.Errors.{StaleView, AlreadyReobserving}

-- RefreshEvidenceInterval
pub record RefreshEvidenceInterval : Type 0 where
  pub role : Role
  pub agent_id : String
  pub from : ℕ
  pub until : Option ℕ

-- RefreshClaimArtifacts
pub record RefreshClaimArtifacts : Type 0 where
  pub assignment : RunAssignment
  pub attempt : AgentAttempt

-- RefreshClaimArtifactContext
pub record RefreshClaimArtifactContext : Type 0 where
  pub session : EpochSession
  pub plan : RefreshPlan
  pub role : Role
  pub agent_id : String

-- ClaimRefreshPlanResult
pub data ClaimRefreshPlanResult : Type 0 where
  claimed : Role → String → RefreshPlan → RunAssignment → AgentAttempt → ClaimRefreshPlanResult
  already_reobserving : AlreadyReobserving → ClaimRefreshPlanResult
  stale_view : StaleView → ClaimRefreshPlanResult
  invalidated : String → ℕ → ClaimRefreshPlanResult

-- The messages of failInvariant
pub data Invariant : Type 0 where
  role_of_agent unsafe_head three_intervals order_of_roles distinct_owners : Invariant
  interval_start interval_end : Invariant
  session_unique historical_stale not_blocked not_idle : Invariant
  validation_unique not_current validation_bindings other_plan session_bound : Invariant
  decisions_required decision_tuple : Invariant
  decision_unique decision_binding receipt_unique receipt_binding : Role → Invariant
  history_unresolved history_invalid : Role → Invariant
  receipts_distinct dependency_set proof_unique proof_closure owners_differ budget_only : Invariant
  artifact_assignment artifact_attempt artifact_reused : Invariant
  plan_malformed claimed_state claimed_session_unique claimed_frozen : Invariant
  claimed_attempt_unique claimed_assignment_unique claimed_lifecycle : Invariant
  session_missing plan_missing plan_unique one_plan attempt_active : Invariant

-- What the planner throws: an invariant's message, a Zod error, an error of a port, or
-- AbortRefreshClaim with its result.
pub data PlannerError : Type 0 where
  invariant : Invariant → PlannerError
  malformed : PlannerError
  port_failed : PlannerError
  aborted : ClaimRefreshPlanResult → PlannerError

abbrev pub Planned : Type 0 → Type 0
Planned A = Result PlannerError A

-- RefreshPlannerWorldPort and `createArtifacts`. The first may throw (`err`) or answer null
-- (`none`); of the second, `none` is a throw.
pub record RefreshPorts : Type 0 where
  pub resolve_resource_version :
      EpochDatabase → ObservationReceipt → Result (Unit {0}) (Option ResourceVersion)
  pub create_artifacts : RefreshClaimArtifactContext → Option RefreshClaimArtifacts

-- sameOrderedIds
unfoldable pub same_ordered_ids : List String → List String → Bool
same_ordered_ids [] [] = true
same_ordered_ids (a ∷ more) (b ∷ bs) = a == b && same_ordered_ids more bs
same_ordered_ids _ _ = false
