-- ===== src/Contract/Records.antt =====
-- The records of apps/server/src/epochguard/types.ts that the world, the runs and the decisions
-- write. Fields whose schema is a literal (schemaVersion, issuer, constructedBy) have no entry.
use epochguard.Prelude.{ℕ, String, Option, List}
use epochguard.Contract.States.{Role, Source, Verdict, SessionState}
use epochguard.Contract.RecordStates.{AttemptState, AssignmentState, DecisionState}
use epochguard.Contract.Values.{JsonValue}
use epochguard.Contract.Action.{ActionIntent}

-- RoleAgentRegistration
pub record RoleAgentRegistration : Type 0 where
  pub role : Role
  pub agent_id : String
  pub agent_name_at_registration : String
  pub role_profile_version : String
  pub agents_md_digest : String
  pub registered_at : String

-- A member of WorldCommit's `changes`
pub record WorldChange : Type 0 where
  pub resource_id : String
  pub previous_version_id : Option String
  pub next_version_id : String

-- WorldCommit
pub record WorldCommit : Type 0 where
  pub seq : ℕ
  pub changes : List WorldChange
  pub reason : String
  pub created_at : String

-- ResourceVersion
pub record ResourceVersion : Type 0 where
  pub id : String
  pub resource_id : String
  pub source_revision : ℕ
  pub value : JsonValue
  pub value_hash : String
  pub valid_from_seq : ℕ
  pub valid_until_seq : Option ℕ

-- RunAssignment
pub record RunAssignment : Type 0 where
  pub assignment_id : String
  pub session_id : String
  pub action_hash : String
  pub agent_id : String
  pub agent_name_at_assignment : String
  pub role : Role
  pub receipt_id : String
  pub query_hash : String
  pub role_profile_version : String
  pub prompt_template_version : String
  pub agents_md_digest : String
  pub runtime_label_at_dispatch : String
  pub evidence_pack_relative_path : String
  pub evidence_pack_hash : String
  pub bound_run_id : Option String
  pub status : AssignmentState
  pub consumed_by_decision_certificate_id : Option String
  pub created_at : String
  pub bound_at : Option String
  pub consumed_at : Option String

-- RunUsage
pub record RunUsage : Type 0 where
  pub input_tokens : Option ℕ
  pub cached_input_tokens : Option ℕ
  pub output_tokens : Option ℕ

-- AgentAttempt
pub record AgentAttempt : Type 0 where
  pub attempt_id : String
  pub session_id : String
  pub action_hash : String
  pub role : Role
  pub agent_id : String
  pub assignment_id : String
  pub run_id : Option String
  pub status : AttemptState
  pub run_started_at : Option String
  pub run_completed_at : Option String
  pub thread_id : Option String
  pub usage : Option RunUsage
  pub output_digest : Option String

-- ObservationReceipt
pub record ObservationReceipt : Type 0 where
  pub receipt_id : String
  pub session_id : String
  pub action_hash : String
  pub agent_id : String
  pub run_assignment_id : String
  pub role : Role
  pub source : Source
  pub entity_key : String
  pub query_hash : String
  pub source_revision : ℕ
  pub value_hash : String
  pub observed_at_seq : ℕ
  pub nonce : String
  pub issued_at : String
  pub integrity_tag : Option String

-- DependencyCertificate; `receiptIds` is a tuple of one.
pub record DependencyCertificate : Type 0 where
  pub certificate_id : String
  pub session_id : String
  pub action_hash : String
  pub agent_id : String
  pub run_assignment_id : String
  pub run_id : String
  pub role : Role
  pub verdict : Verdict
  pub receipt_id : String
  pub decision_digest : String
  pub status : DecisionState
  pub superseded_by_certificate_id : Option String
  pub created_at : String

-- Three nullable identifiers, one for each role.
pub record RoleIds : Type 0 where
  pub inventory : Option String
  pub budget : Option String
  pub policy : Option String

-- `ids[role]`, and `ids[role] = id`
abbrev pub role_id : RoleIds → Role → Option String
role_id ids Role.inventory = ids.inventory
role_id ids Role.budget = ids.budget
role_id ids Role.policy = ids.policy

abbrev pub with_role_id : Role → Option String → RoleIds → RoleIds
with_role_id Role.inventory id ids = record ids { inventory = id }
with_role_id Role.budget id ids = record ids { budget = id }
with_role_id Role.policy id ids = record ids { policy = id }

-- `frozenAssignments`
pub record FrozenAssignments : Type 0 where
  pub inventory_agent_id : String
  pub budget_agent_id : String
  pub policy_agent_id : String

-- SCENARIO_IDS
pub data ScenarioId : Type 0 where
  normal_world_v1 impossible_collage_v1 : ScenarioId

-- COORDINATION_MODES
pub data CoordinationMode : Type 0 where
  pending concurrent sequential_fallback : CoordinationMode

-- EpochSession
pub record EpochSession : Type 0 where
  pub session_id : String
  pub scenario_id : ScenarioId
  pub action : ActionIntent
  pub action_hash : String
  pub state : SessionState
  pub session_revision : ℕ
  pub coordination_mode : CoordinationMode
  pub frozen_assignments : FrozenAssignments
  pub active_decision_certificate_ids : RoleIds
  pub active_attempt_ids : RoleIds
  pub active_validation_id : Option String
  pub active_refresh_plan_id : Option String
  pub active_permit_id : Option String
  pub state_updated_at : String
  pub created_at : String
