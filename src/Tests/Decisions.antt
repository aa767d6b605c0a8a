-- ===== src/Tests/Decisions.antt =====
-- A Budget output that is accepted, and one that is rejected.
use epochguard.Prelude.{
  ◌≡◌, ◌≢◌, refl, String, some, none, [], ◌∷◌, ◌++◌, ok, err, IsUniqueBy, arith, Bool-cases, inl,
  inr, ◌==◌, string_eq,
}
use epochguard.Contract.States.{Role, Verdict}
use epochguard.Contract.RecordStates.{AttemptState, AssignmentState}
use epochguard.Contract.Records.{RunAssignment, AgentAttempt, EpochSession, DependencyCertificate}
use epochguard.Contract.Database.{RejectedOutputArtifact, EpochDatabase, parse_rejected}
use epochguard.Decision.Envelope.{AgentDecisionEnvelope, EnvelopeError, parse_decision_envelope}
use epochguard.Decision.Consume.{
  new_decision, write_decision, write_rejection, normalize_and_consume,
}
use epochguard.Decision.Subject.{
  accepted, output_rejected, ConsumePorts, Consumption, envelope_json, new_artifact,
}
use epochguard.Decision.Once.{consume_once}
use epochguard.Decision.Accepted.{
  IsAccepted, consume-IsAccepted, consume_rejected, consume-IsUniqueBy,
}
use epochguard.Tests.Fixtures.{
  toy, time, digest, session, assignment, attempt, receipt, decision, database, steady,
}

abbrev bound : RunAssignment
bound = record (assignment Role.budget) {
  status = AssignmentState.bound;
  consumed_by_decision_certificate_id = none;
  consumed_at = none;
}

abbrev completed : AgentAttempt
completed = record (attempt Role.budget) { status = AttemptState.completed }

abbrev waiting : EpochSession
waiting = record session {
  active_attempt_ids = record { inventory = none; budget = some "at-budget"; policy = none };
}

abbrev before : EpochDatabase
before = record (database steady) {
  sessions = waiting ∷ [];
  run_assignments = bound ∷ [];
  attempts = completed ∷ [];
  decisions = decision Role.budget ∷ [];
}

abbrev envelope : AgentDecisionEnvelope
envelope = record {
  session_id = "s1";
  action_hash = digest;
  run_assignment_id = "as-budget";
  role = Role.budget;
  receipt_id = "rc-budget";
  nonce = "0123456789abcdef0123456789abcdef";
  verdict = Verdict.allow;
  reason = "The budget covers it.";
}

-- JSON.parse answers for the one text between the markers below.
abbrev ports : ConsumePorts
ports = record {
  parse_json = λ _. some (envelope_json envelope);
  redact = λ t. t;
  certificate_id = "d2";
  rejected_output_artifact_id = "artifact1";
  created_at = time;
}

abbrev output : String
output = "<EPOCH_DECISION>{}</EPOCH_DECISION>"

abbrev subject : Consumption
subject = record {
  attempt = completed;
  assignment = bound;
  session = waiting;
  receipt = receipt steady Role.budget;
}

abbrev decided : DependencyCertificate
decided = new_decision toy ports before subject "run-budget" envelope

abbrev after : EpochDatabase
after = write_decision toy ports before subject decided

accept_run :
    normalize_and_consume toy ports before "at-budget" output ≡ ok (accepted decided, after)
unfolding normalize_and_consume epochguard.Decision.Subject.find_consumption
    epochguard.Decision.Subject.check_available epochguard.Decision.Subject.check_consumption
    epochguard.Decision.Consume.accept_envelope epochguard.Decision.Consume.check_envelope
    epochguard.Decision.Consume.check_existing epochguard.Decision.Binding.require_unique
    epochguard.Decision.Binding.assert_canonical_action
    epochguard.Decision.Binding.assert_role_query_binding
    epochguard.Decision.Binding.assert_registration_binding
    epochguard.Decision.Binding.assert_attempt_binding
    epochguard.Decision.Binding.assert_receipt_binding parse_decision_envelope
    epochguard.Decision.Envelope.utf8_length epochguard.Decision.Envelope.count_literal
    epochguard.Decision.Envelope.trim_start epochguard.Decision.Envelope.reversed
    epochguard.Decision.Envelope.trim epochguard.Decision.Envelope.between_markers
    epochguard.Decision.Envelope.value_at epochguard.Decision.Envelope.only_keys
    epochguard.Decision.Envelope.envelope_of_fields epochguard.Contract.Identifiers.after_prefix
    epochguard.Contract.Action.build_role_query_spec epochguard.Contract.Action.role_query
    epochguard.Contract.Action.action_hash epochguard.Contract.Action.action_fields_schema
    epochguard.Contract.Schemas.decision_schema epochguard.Contract.Identifiers.is_opaque_id
    epochguard.Contract.Identifiers.is_sha256_digest epochguard.Contract.Identifiers.is_short_text
    epochguard.Contract.Json.canonical_json epochguard.Contract.Json.sha256_digest
accept_run = refl

abbrev artifact : RejectedOutputArtifact
artifact = new_artifact toy ports before subject "x" (parse_rejected "x" digest)

abbrev after_rejection : EpochDatabase
after_rejection = write_rejection toy ports before subject artifact

reject_run :
    normalize_and_consume toy ports before "at-budget" "x"
    ≡ ok (output_rejected artifact, after_rejection)
unfolding normalize_and_consume epochguard.Decision.Subject.find_consumption
    epochguard.Decision.Subject.check_available epochguard.Decision.Subject.check_consumption
    epochguard.Decision.Consume.reject_output epochguard.Decision.Subject.build_rejected_artifact
    epochguard.Decision.Subject.rejected_content epochguard.Decision.Subject.sanitized_content
    epochguard.Decision.Binding.require_unique epochguard.Decision.Binding.assert_canonical_action
    epochguard.Decision.Binding.assert_role_query_binding
    epochguard.Decision.Binding.assert_registration_binding
    epochguard.Decision.Binding.assert_attempt_binding
    epochguard.Decision.Binding.assert_receipt_binding parse_decision_envelope
    epochguard.Decision.Envelope.utf8_length epochguard.Decision.Envelope.count_literal
    epochguard.Contract.Identifiers.after_prefix epochguard.Contract.Action.build_role_query_spec
    epochguard.Contract.Action.role_query epochguard.Contract.Action.action_hash
    epochguard.Contract.Action.action_fields_schema
    epochguard.Contract.EvidenceSchemas.artifact_schema epochguard.Contract.Identifiers.is_opaque_id
    epochguard.Contract.Identifiers.is_sha256_digest epochguard.Contract.Identifiers.is_short_text
    epochguard.Contract.Json.canonical_json epochguard.Contract.Json.sha256_digest
reject_run = refl

consume_once_example :
    normalize_and_consume toy ports after "at-budget" output ≢ ok (accepted decided, after)
consume_once_example =
    consume_once toy ports before "at-budget" output (accepted decided) after accept_run ports
      output (accepted decided, after)

consume-IsAccepted_example : IsAccepted toy ports before "at-budget" output decided after
consume-IsAccepted_example =
    consume-IsAccepted toy ports before "at-budget" output decided after accept_run

consume_rejected_example :
    ((e : EnvelopeError) × (parse_decision_envelope toy ports.parse_json "x" ≡ err e))
    × (after_rejection.rejected_output_artifacts
        ≡ before.rejected_output_artifacts ++ artifact ∷ [])
    × (after_rejection.decisions ≡ before.decisions)
    × (after_rejection.sessions ≡ before.sessions)
    × (after_rejection.receipts ≡ before.receipts)
    × (after_rejection.effects ≡ before.effects)
consume_rejected_example =
    consume_rejected toy ports before "at-budget" "x" artifact after_rejection reject_run

one_decision : IsUniqueBy (λ d. d.certificate_id) before.decisions
one_decision k = elim (Bool-cases ("d-budget" == k)) [
  | inl e ↦ rw e (omega arith)
  | inr e ↦ rw e (omega arith)
]

consume-IsUniqueBy_example : IsUniqueBy (λ d. d.certificate_id) after.decisions
consume-IsUniqueBy_example =
    consume-IsUniqueBy toy ports before "at-budget" output (accepted decided) after accept_run
      one_decision
