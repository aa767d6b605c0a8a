-- ===== src/Decision/Consume.antt =====
-- The one-time consumption of a decision, `normalizeAndConsumeDecision` of
-- apps/server/src/epochguard/decision-parser.ts.
use epochguard.Prelude.{
  String, Bool, not, ◌||◌, Option, none, some, List, [], ◌∷◌, ◌++◌, ◌==◌, ◌!=◌, string_eq,
  option_eq, any, update_first, ok, err, ◌>>=◌, ◌>>◌, throw_if, require,
}
use epochguard.Platform.{Platform}
use epochguard.Contract.Json.{value_digest}
use epochguard.Contract.States.{Role, role_eq}
use epochguard.Contract.RecordStates.{
  FailureCode, AttemptState, AssignmentState, DecisionState, attempt_state_eq, assignment_state_eq,
  decision_state_eq,
}
use epochguard.Contract.Records.{
  RunAssignment, AgentAttempt, DependencyCertificate, EpochSession, role_id, with_role_id,
}
use epochguard.Contract.Database.{RejectedOutputArtifact, EpochDatabase}
use epochguard.Contract.Schemas.{decision_schema}
use epochguard.Decision.Binding.{Checked, malformed, require_unique, assert_equal}
use epochguard.Decision.Envelope.{
  AgentDecisionEnvelope, EnvelopeError, envelope_error_eq, Enveloped, parse_decision_envelope,
}
use epochguard.Decision.Subject.{
  accepted, output_rejected, ConsumePorts, NormalizationResult, envelope_json, invalid, Consumption,
  find_consumption, check_consumption, build_rejected_artifact,
}

module _ (p : Platform) (ports : ConsumePorts) (db : EpochDatabase) where
  abbrev pub is_attempt : Consumption → AgentAttempt → Bool
  is_attempt k c = c.attempt_id == k.attempt.attempt_id

  abbrev pub is_assignment : Consumption → RunAssignment → Bool
  is_assignment k c = c.assignment_id == k.attempt.assignment_id

  abbrev pub is_consumer : Consumption → EpochSession → Bool
  is_consumer k c = c.session_id == k.assignment.session_id

  -- The writes of a rejected output.
  abbrev pub write_rejection : Consumption → RejectedOutputArtifact → EpochDatabase
  write_rejection k artifact = record db {
    run_assignments =
        update_first (is_assignment k) (λ c. record c { status = AssignmentState.rejected })
          db.run_assignments;
    attempts =
        update_first (is_attempt k) (λ c. record c { status = AttemptState.output_rejected })
          db.attempts;
    rejected_output_artifacts = db.rejected_output_artifacts ++ artifact ∷ [];
  }

  unfoldable pub reject_output :
      Consumption → String → EnvelopeError → Checked (NormalizationResult × EpochDatabase)
  reject_output k raw e = do
    artifact ← build_rejected_artifact p ports db k raw e
    ok (output_rejected artifact, write_rejection k artifact)

  -- The envelope speaks of the Assignment and of its Receipt.
  unfoldable pub check_envelope : Consumption → AgentDecisionEnvelope → Checked (Unit {0})
  check_envelope k e = do
    assert_equal e.session_id k.assignment.session_id FailureCode.binding_mismatch
    assert_equal e.action_hash k.assignment.action_hash FailureCode.action_hash_mismatch
    assert_equal e.run_assignment_id k.assignment.assignment_id FailureCode.binding_mismatch
    assert_equal e.role k.assignment.role FailureCode.binding_mismatch
    assert_equal e.receipt_id k.receipt.receipt_id FailureCode.binding_mismatch
    assert_equal e.nonce k.receipt.nonce FailureCode.binding_mismatch

  -- The active Decision of the role may be superseded.
  unfoldable pub check_existing : Consumption → Option String → Checked (Unit {0})
  check_existing k none = ok tt
  check_existing k (some id) = do
    d ← require_unique db.decisions (λ c. c.certificate_id == id)
    throw_if
        (d.status != DecisionState.active
          || d.role != k.assignment.role
          || d.session_id != k.session.session_id
          || d.action_hash != k.session.action_hash)
        invalid

  abbrev pub new_decision : Consumption → String → AgentDecisionEnvelope → DependencyCertificate
  new_decision k run e = record {
    certificate_id = ports.certificate_id;
    session_id = k.assignment.session_id;
    action_hash = k.assignment.action_hash;
    agent_id = k.assignment.agent_id;
    run_assignment_id = k.assignment.assignment_id;
    run_id = run;
    role = k.assignment.role;
    verdict = e.verdict;
    receipt_id = k.receipt.receipt_id;
    decision_digest = value_digest p (envelope_json e);
    status = DecisionState.active;
    superseded_by_certificate_id = none;
    created_at = ports.created_at;
  }

  abbrev pub superseded_by : String → DependencyCertificate → DependencyCertificate
  superseded_by id d = record d {
    status = DecisionState.superseded;
    superseded_by_certificate_id = some id;
  }

  abbrev pub supersede : Option String → List DependencyCertificate → List DependencyCertificate
  supersede none ds = ds
  supersede (some id) ds =
      update_first (λ c. c.certificate_id == id) (superseded_by ports.certificate_id) ds

  abbrev pub consumed_assignment : RunAssignment → RunAssignment
  consumed_assignment c = record c {
    status = AssignmentState.consumed;
    consumed_by_decision_certificate_id = some ports.certificate_id;
    consumed_at = some ports.created_at;
  }

  abbrev pub session_after : Role → EpochSession → EpochSession
  session_after role c = record c {
    active_decision_certificate_ids =
        with_role_id role (some ports.certificate_id) c.active_decision_certificate_ids;
    active_attempt_ids = with_role_id role none c.active_attempt_ids;
  }

  -- The writes of an accepted decision.
  abbrev pub write_decision : Consumption → DependencyCertificate → EpochDatabase
  write_decision k d = record db {
    run_assignments = update_first (is_assignment k) consumed_assignment db.run_assignments;
    attempts =
        update_first (is_attempt k) (λ c. record c { status = AttemptState.accepted }) db.attempts;
    decisions =
        supersede (role_id k.session.active_decision_certificate_ids k.assignment.role) db.decisions
        ++ d ∷ [];
    sessions = update_first (is_consumer k) (session_after k.assignment.role) db.sessions;
  }

  unfoldable pub accept_envelope :
      Consumption → AgentDecisionEnvelope → Checked (NormalizationResult × EpochDatabase)
  accept_envelope k e = do
    check_envelope k e
    throw_if (any (λ c. c.certificate_id == ports.certificate_id) db.decisions) invalid
    check_existing k (role_id k.session.active_decision_certificate_ids k.assignment.role)
    run ← require k.assignment.bound_run_id malformed
    throw_if (not (decision_schema p (new_decision k run e))) malformed
    ok (accepted (new_decision k run e), write_decision k (new_decision k run e))

  abbrev pub accept_or_reject :
      Consumption
      → String
      → Enveloped AgentDecisionEnvelope
      → Checked (NormalizationResult × EpochDatabase)
  accept_or_reject k raw (ok e) = accept_envelope k e
  accept_or_reject k raw (err e) = reject_output k raw e

  -- normalizeAndConsumeDecision
  unfoldable pub normalize_and_consume :
      String → String → Checked (NormalizationResult × EpochDatabase)
  normalize_and_consume attempt_id raw = do
    k ← find_consumption p ports db attempt_id
    check_consumption p ports db raw k
    accept_or_reject k raw (parse_decision_envelope p ports.parse_json raw)
