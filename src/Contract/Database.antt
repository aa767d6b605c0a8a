-- ===== src/Contract/Database.antt =====
-- The evidence records of apps/server/src/epochguard/types.ts, from validation to effect, and the
-- database that holds all collections. Fields whose schema is a literal (type, reason,
-- validatorVersion, redactionVersion) have no entry; `diagnostics` and `auditEvents` are
-- collections that the modelled modules neither read nor write.
use epochguard.Prelude.{ℕ, String, Bool, Option, List, [], ◌∷◌}
use epochguard.Contract.States.{Source}
use epochguard.Contract.RecordStates.{ValidationOutcome, PermitState, RefreshPlanState}
use epochguard.Contract.Action.{RoleQuerySpec}
use epochguard.Contract.Records.{
  RoleAgentRegistration, WorldCommit, ResourceVersion, RunAssignment, AgentAttempt,
  ObservationReceipt, DependencyCertificate, EpochSession,
}

-- `z.tuple([OpaqueIdSchema, OpaqueIdSchema, OpaqueIdSchema])`: the Decisions in the order of ROLES
pub record DecisionIds : Type 0 where
  pub inventory : String
  pub budget : String
  pub policy : String

abbrev pub decision_id_list : DecisionIds → List String
decision_id_list t = t.inventory ∷ t.budget ∷ t.policy ∷ []

-- ValidationRecord
pub record ValidationRecord : Type 0 where
  pub validation_id : String
  pub session_id : String
  pub action_hash : String
  pub base_session_revision : ℕ
  pub decision_certificate_ids : DecisionIds
  pub dependency_set_hash : String
  pub validated_head : ℕ
  pub outcome : ValidationOutcome
  pub lower_bound : Option ℕ
  pub upper_bound : Option ℕ
  pub joint_validity_certificate_id : Option String
  pub no_cut_proof_id : Option String
  pub refresh_plan_id : Option String
  pub verification_latency_ms : ℕ
  pub created_at : String

-- IntervalSchema; `from` and `until` bound the half-open interval.
pub record CertificateInterval : Type 0 where
  pub receipt_id : String
  pub source : Source
  pub source_revision : ℕ
  pub from : ℕ
  pub until : Option ℕ

-- JointValidityCertificate
pub record JointValidityCertificate : Type 0 where
  pub certificate_id : String
  pub validation_id : String
  pub session_id : String
  pub action_hash : String
  pub dependency_set_hash : String
  pub validated_at_head : ℕ
  pub selected_cut_seq : ℕ
  pub current_head_covered : Bool
  pub decision_certificate_ids : DecisionIds
  pub intervals : List CertificateInterval
  pub created_at : String

-- EffectPermit
pub record EffectPermit : Type 0 where
  pub permit_id : String
  pub session_id : String
  pub action_hash : String
  pub dependency_set_hash : String
  pub joint_validity_certificate_id : String
  pub validated_head : ℕ
  pub idempotency_key : String
  pub status : PermitState
  pub issued_at : String
  pub consumed_at : Option String

-- NoCutProof
pub record NoCutProof : Type 0 where
  pub proof_id : String
  pub validation_id : String
  pub session_id : String
  pub action_hash : String
  pub dependency_set_hash : String
  pub decision_certificate_ids : DecisionIds
  pub validated_at_head : ℕ
  pub lower_bound : ℕ
  pub upper_bound : ℕ
  pub latest_starting_receipt_id : String
  pub earliest_ending_receipt_id : String
  pub conflict_witness_receipt_ids : String × String
  pub refresh_agent_ids : List String
  pub created_at : String

-- EffectRecord
pub record EffectRecord : Type 0 where
  pub effect_id : String
  pub idempotency_key : String
  pub permit_id : String
  pub session_id : String
  pub action_hash : String
  pub dependency_set_hash : String
  pub joint_validity_certificate_id : String
  pub created_at : String

-- RefreshPlan
pub record RefreshPlan : Type 0 where
  pub refresh_plan_id : String
  pub session_id : String
  pub base_session_revision : ℕ
  pub validated_head : ℕ
  pub dependency_set_hash : String
  pub active_decision_certificate_ids : List String
  pub agent_ids : List String
  pub status : RefreshPlanState
  pub claimed_attempt_id : Option String

-- The two members of RejectedOutputArtifactSchema: the sanitized content and its digest, or nothing
-- of an output that is too large.
pub data RejectedContent : Type 0 where
  parse_rejected : String → String → RejectedContent
  output_too_large : RejectedContent

-- RejectedOutputArtifact
pub record RejectedOutputArtifact : Type 0 where
  pub artifact_id : String
  pub session_id : String
  pub attempt_id : String
  pub original_digest : String
  pub original_byte_length : ℕ
  pub content : RejectedContent
  pub created_at : String

-- EpochDatabase
pub record EpochDatabase : Type 0 where
  pub snapshot_revision : ℕ
  pub head_seq : ℕ
  pub role_agent_registrations : List RoleAgentRegistration
  pub world_commits : List WorldCommit
  pub resource_versions : List ResourceVersion
  pub role_query_specs : List RoleQuerySpec
  pub run_assignments : List RunAssignment
  pub receipts : List ObservationReceipt
  pub sessions : List EpochSession
  pub attempts : List AgentAttempt
  pub decisions : List DependencyCertificate
  pub validations : List ValidationRecord
  pub joint_validity_certificates : List JointValidityCertificate
  pub no_cut_proofs : List NoCutProof
  pub refresh_plans : List RefreshPlan
  pub permits : List EffectPermit
  pub effects : List EffectRecord
  pub rejected_output_artifacts : List RejectedOutputArtifact
