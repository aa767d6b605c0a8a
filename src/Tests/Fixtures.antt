-- ===== src/Tests/Fixtures.antt =====
-- A platform whose digest is constant, and the evidence of one Session, for the runs beside this
-- file.
use epochguard.Prelude.{ℕ, zero, suc, String, true, Option, none, some, [], ◌∷◌, map, concat}
use epochguard.Platform.{Platform}
use epochguard.Contract.Values.{JsonValue, JsonFields}
use epochguard.Contract.States.{Role, roles, Verdict, SessionState}
use epochguard.Contract.RecordStates.{
  AttemptState, AssignmentState, DecisionState, ValidationOutcome, PermitState,
}
use epochguard.Contract.Action.{ActionIntent, role_query, role_name}
use epochguard.Contract.Records.{
  RoleAgentRegistration, ResourceVersion, RunAssignment, AgentAttempt, ObservationReceipt,
  DependencyCertificate, EpochSession, ScenarioId, CoordinationMode,
}
use epochguard.Contract.Database.{
  DecisionIds, ValidationRecord, CertificateInterval, JointValidityCertificate, EffectPermit,
  EpochDatabase,
}

abbrev pub digest : String
digest = "sha256:0000000000000000000000000000000000000000000000000000000000000000"

abbrev pub digit : ℕ → String
digit zero = "0"
digit (suc _) = "1"

abbrev pub observed_value : Role → JsonValue
observed_value Role.inventory =
    JsonValue.object (JsonFields.field "availableUnits" (JsonValue.number 5) JsonFields.end)
observed_value Role.budget =
    JsonValue.object (JsonFields.field "remainingBudgetCents" (JsonValue.number 10) JsonFields.end)
observed_value Role.policy =
    JsonValue.object (JsonFields.field "permitted" (JsonValue.bool true) JsonFields.end)

-- `json_parse` answers as JSON.parse does for the one text that the ledger's run gives it.
abbrev pub toy : Platform
toy = record {
  sha256_hex = λ _. "0000000000000000000000000000000000000000000000000000000000000000";
  json_string = λ s. concat "'" (concat s "'");
  json_number = digit;
  json_parse = λ _. observed_value Role.inventory;
  is_datetime = λ _. true;
  date_le = λ _ _. true;
}

abbrev pub time : String
time = "2026-01-01T00:00:00Z"

abbrev pub named : String → Role → String
named prefix r = concat prefix (concat "-" (role_name r))

-- The times of the versions that the three roles observed.
pub record History : Type 0 where
  pub head : ℕ
  pub from : Role → ℕ
  pub until : Role → Option ℕ

abbrev pub action : ActionIntent
action = record {
  campaign_id = "c1";
  requested_units = 5;
  estimated_cost_cents = 10;
  action_id = "a1";
  session_id = "s1";
  action_hash = digest;
  idempotency_key = concat "s1:" digest;
}

abbrev pub ids : DecisionIds
ids = record { inventory = "d-inventory"; budget = "d-budget"; policy = "d-policy" }

abbrev pub session : EpochSession
session = record {
  session_id = "s1";
  scenario_id = ScenarioId.normal_world_v1;
  action = action;
  action_hash = digest;
  state = SessionState.ready_at_current_head;
  session_revision = 3;
  coordination_mode = CoordinationMode.concurrent;
  frozen_assignments = record {
    inventory_agent_id = "agent-inventory";
    budget_agent_id = "agent-budget";
    policy_agent_id = "agent-policy";
  };
  active_decision_certificate_ids = record {
    inventory = some "d-inventory";
    budget = some "d-budget";
    policy = some "d-policy";
  };
  active_attempt_ids = record { inventory = none; budget = none; policy = none };
  active_validation_id = some "val1";
  active_refresh_plan_id = none;
  active_permit_id = some "permit1";
  state_updated_at = time;
  created_at = time;
}

abbrev pub registration : Role → RoleAgentRegistration
registration r = record {
  role = r;
  agent_id = named "agent" r;
  agent_name_at_registration = "Agent";
  role_profile_version = "v1";
  agents_md_digest = digest;
  registered_at = time;
}

abbrev pub version : History → Role → ResourceVersion
version h r = record {
  id = named "rv" r;
  resource_id = named "res" r;
  source_revision = h.from r;
  value = observed_value r;
  value_hash = digest;
  valid_from_seq = h.from r;
  valid_until_seq = h.until r;
}

abbrev pub assignment : Role → RunAssignment
assignment r = record {
  assignment_id = named "as" r;
  session_id = "s1";
  action_hash = digest;
  agent_id = named "agent" r;
  agent_name_at_assignment = "Agent";
  role = r;
  receipt_id = named "rc" r;
  query_hash = digest;
  role_profile_version = "v1";
  prompt_template_version = "v1";
  agents_md_digest = digest;
  runtime_label_at_dispatch = "label";
  evidence_pack_relative_path = ".epochguard/sessions/s1/budget/a.json";
  evidence_pack_hash = digest;
  bound_run_id = some (named "run" r);
  status = AssignmentState.consumed;
  consumed_by_decision_certificate_id = some (named "d" r);
  created_at = time;
  bound_at = some time;
  consumed_at = some time;
}

abbrev pub attempt : Role → AgentAttempt
attempt r = record {
  attempt_id = named "at" r;
  session_id = "s1";
  action_hash = digest;
  role = r;
  agent_id = named "agent" r;
  assignment_id = named "as" r;
  run_id = some (named "run" r);
  status = AttemptState.accepted;
  run_started_at = some time;
  run_completed_at = some time;
  thread_id = none;
  usage = none;
  output_digest = some digest;
}

abbrev pub receipt : History → Role → ObservationReceipt
receipt h r = record {
  receipt_id = named "rc" r;
  session_id = "s1";
  action_hash = digest;
  agent_id = named "agent" r;
  run_assignment_id = named "as" r;
  role = r;
  source = r;
  entity_key = (role_query toy action r).entity_key;
  query_hash = digest;
  source_revision = h.from r;
  value_hash = digest;
  observed_at_seq = h.from r;
  nonce = "0123456789abcdef0123456789abcdef";
  issued_at = time;
  integrity_tag = none;
}

abbrev pub decision : Role → DependencyCertificate
decision r = record {
  certificate_id = named "d" r;
  session_id = "s1";
  action_hash = digest;
  agent_id = named "agent" r;
  run_assignment_id = named "as" r;
  run_id = named "run" r;
  role = r;
  verdict = Verdict.allow;
  receipt_id = named "rc" r;
  decision_digest = digest;
  status = DecisionState.active;
  superseded_by_certificate_id = none;
  created_at = time;
}

abbrev pub validation : ValidationRecord
validation = record {
  validation_id = "val1";
  session_id = "s1";
  action_hash = digest;
  base_session_revision = 2;
  decision_certificate_ids = ids;
  dependency_set_hash = digest;
  validated_head = 1;
  outcome = ValidationOutcome.valid_current_allow;
  lower_bound = some 1;
  upper_bound = some 2;
  joint_validity_certificate_id = some "jvc1";
  no_cut_proof_id = none;
  refresh_plan_id = none;
  verification_latency_ms = 0;
  created_at = time;
}

abbrev pub certified : Role → CertificateInterval
certified r = record {
  receipt_id = named "rc" r;
  source = r;
  source_revision = 1;
  from = 1;
  until = none;
}

abbrev pub certificate : JointValidityCertificate
certificate = record {
  certificate_id = "jvc1";
  validation_id = "val1";
  session_id = "s1";
  action_hash = digest;
  dependency_set_hash = digest;
  validated_at_head = 1;
  selected_cut_seq = 1;
  current_head_covered = true;
  decision_certificate_ids = ids;
  intervals = map certified roles;
  created_at = time;
}

abbrev pub permit : EffectPermit
permit = record {
  permit_id = "permit1";
  session_id = "s1";
  action_hash = digest;
  dependency_set_hash = digest;
  joint_validity_certificate_id = "jvc1";
  validated_head = 1;
  idempotency_key = concat "s1:" digest;
  status = PermitState.issued;
  issued_at = time;
  consumed_at = none;
}

abbrev pub database : History → EpochDatabase
database h = record {
  snapshot_revision = 0;
  head_seq = h.head;
  role_agent_registrations = map registration roles;
  world_commits = [];
  resource_versions = map (version h) roles;
  role_query_specs = map (role_query toy action) roles;
  run_assignments = map assignment roles;
  receipts = map (receipt h) roles;
  sessions = session ∷ [];
  attempts = map attempt roles;
  decisions = map decision roles;
  validations = validation ∷ [];
  joint_validity_certificates = certificate ∷ [];
  no_cut_proofs = [];
  refresh_plans = [];
  permits = permit ∷ [];
  effects = [];
  rejected_output_artifacts = [];
}

-- All three versions begin at 1 and are open.
abbrev pub steady : History
steady = record { head = 1; from = λ _. 1; until = λ _. none }

-- The inventory's version ends at 1, the others begin at 2.
abbrev pub torn : History
torn = record {
  head = 2;
  from = λ r. elim r [ Role.inventory ↦ 0 | _ ↦ 2 ];
  until = λ r. elim r [ Role.inventory ↦ some 1 | _ ↦ none ];
}
