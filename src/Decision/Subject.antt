-- ===== src/Decision/Subject.antt =====
-- What `normalizeAndConsumeDecision` of apps/server/src/epochguard/decision-parser.ts consumes: the
-- Attempt with its records, the checks of them, and the artifact of an output that is rejected.
use epochguard.Prelude.{
  ℕ, String, Bool, false, not, ◌||◌, Option, some, List, ltb, ◌==◌, ◌!=◌, string_eq, option_eq,
  is_null, codes, any, ok, err, ◌>>=◌, ◌>>◌, throw_if, if◌then◌else◌,
}
use epochguard.Platform.{Platform}
use epochguard.Contract.Values.{JsonValue, JsonFields}
use epochguard.Contract.Json.{sha256_digest}
use epochguard.Contract.States.{Verdict, role_eq}
use epochguard.Contract.RecordStates.{
  FailureCode, AttemptState, AssignmentState, attempt_state_eq, assignment_state_eq,
  decision_state_eq,
}
use epochguard.Contract.Action.{role_name}
use epochguard.Contract.Records.{
  RunAssignment, AgentAttempt, ObservationReceipt, DependencyCertificate, EpochSession, role_id,
}
use epochguard.Contract.Database.{
  RejectedContent, RejectedOutputArtifact, EpochDatabase, parse_rejected, output_too_large,
}
use epochguard.Contract.EvidenceSchemas.{artifact_schema}
use epochguard.Decision.Binding.{
  BindingError, Checked, failed, malformed, require_unique, assert_equal, assert_canonical_action,
  assert_role_query_binding, assert_registration_binding, assert_attempt_binding,
  assert_receipt_binding,
}
use epochguard.Decision.Envelope.{
  AgentDecisionEnvelope, EnvelopeError, envelope_error_eq, Enveloped, max_output_bytes, utf8_length,
  parse_decision_envelope,
}

-- What the consumption takes from outside: JSON.parse, the redaction of a rejected output, and the
-- options after their defaults (randomUUID and the clock).
pub record ConsumePorts : Type 0 where
  pub parse_json : List ℕ → Option JsonValue
  pub redact : String → String
  pub certificate_id : String
  pub rejected_output_artifact_id : String
  pub created_at : String

-- DecisionNormalizationResult
pub data NormalizationResult : Type 0 where
  accepted : DependencyCertificate → NormalizationResult
  output_rejected : RejectedOutputArtifact → NormalizationResult

abbrev pub verdict_name : Verdict → String
verdict_name Verdict.allow = "ALLOW"
verdict_name Verdict.deny = "DENY"

-- The envelope as the object that canonicalJson receives.
abbrev pub envelope_json : AgentDecisionEnvelope → JsonValue
envelope_json e =
    let f = JsonFields.field in
    JsonValue.object (
      f "schemaVersion" (JsonValue.number 1) (
        f "sessionId" (JsonValue.text e.session_id) (
          f "actionHash" (JsonValue.text e.action_hash) (
            f "runAssignmentId" (JsonValue.text e.run_assignment_id) (
              f "role" (JsonValue.text (role_name e.role)) (
                f "receiptId" (JsonValue.text e.receipt_id) (
                  f "nonce" (JsonValue.text e.nonce) (
                    f "verdict" (JsonValue.text (verdict_name e.verdict))
                      (f "reason" (JsonValue.text e.reason) JsonFields.end)))))))))

abbrev pub invalid : BindingError
invalid = failed FailureCode.decision_invalid

-- The four records that one consumption is about.
pub record Consumption : Type 0 where
  pub attempt : AgentAttempt
  pub assignment : RunAssignment
  pub session : EpochSession
  pub receipt : ObservationReceipt

module _ (p : Platform) (ports : ConsumePorts) (db : EpochDatabase) where
  unfoldable pub find_consumption : String → Checked Consumption
  find_consumption attempt_id = do
    t ← require_unique db.attempts (λ c. c.attempt_id == attempt_id)
    a ← require_unique db.run_assignments (λ c. c.assignment_id == t.assignment_id)
    s ← require_unique db.sessions (λ c. c.session_id == a.session_id)
    r ← require_unique db.receipts (λ c. c.receipt_id == a.receipt_id)
    let k : Consumption = record { attempt = t; assignment = a; session = s; receipt = r }
    ok k

  -- The Assignment is available, and the Attempt is a completed Run.
  unfoldable pub check_available : Consumption → Checked (Unit {0})
  check_available k = do
    throw_if
        (k.assignment.status != AssignmentState.bound
          || is_null k.assignment.bound_run_id
          || not (is_null k.assignment.consumed_by_decision_certificate_id)
          || not (is_null k.assignment.consumed_at))
        invalid
    throw_if
        (k.attempt.status != AttemptState.completed
          || is_null k.attempt.run_id
          || is_null k.attempt.run_started_at
          || is_null k.attempt.run_completed_at
          || is_null k.attempt.output_digest)
        invalid

  -- The checks up to the parse of the output.
  unfoldable pub check_consumption : String → Consumption → Checked (Unit {0})
  check_consumption raw k = do
    assert_canonical_action p k.session
    check_available k
    assert_equal k.attempt.output_digest (some (sha256_digest p raw)) FailureCode.binding_mismatch
    assert_attempt_binding k.session k.attempt k.assignment
    assert_registration_binding db k.session k.assignment
    assert_receipt_binding k.assignment k.receipt
    assert_role_query_binding p db k.session k.assignment k.receipt
    assert_equal (role_id k.session.active_attempt_ids k.assignment.role)
        (some k.attempt.attempt_id) FailureCode.binding_mismatch

  abbrev pub fails_with : EnvelopeError → Enveloped AgentDecisionEnvelope → Bool
  fails_with e (ok _) = false
  fails_with e (err f) = f == e

  abbrev pub new_artifact : Consumption → String → RejectedContent → RejectedOutputArtifact
  new_artifact k raw content = record {
    artifact_id = ports.rejected_output_artifact_id;
    session_id = k.session.session_id;
    attempt_id = k.attempt.attempt_id;
    original_digest = sha256_digest p raw;
    original_byte_length = utf8_length (codes raw);
    content = content;
    created_at = ports.created_at;
  }

  -- The content of an output that is not too large: the redaction does not expand it, is
  -- idempotent, and replays the failure.
  unfoldable pub sanitized_content : String → EnvelopeError → Checked RejectedContent
  sanitized_content raw e = do
    let text = ports.redact raw
    throw_if (ltb (utf8_length (codes raw)) (utf8_length (codes text)) || ports.redact text != text)
        invalid
    throw_if (not (fails_with e (parse_decision_envelope p ports.parse_json text))) invalid
    ok (parse_rejected text (sha256_digest p text))

  unfoldable pub rejected_content : String → EnvelopeError → Checked RejectedContent
  rejected_content raw e =
      if ltb max_output_bytes (utf8_length (codes raw))
      then ok output_too_large
      else sanitized_content raw e

  -- buildRejectedOutputArtifact
  unfoldable pub build_rejected_artifact :
      Consumption → String → EnvelopeError → Checked RejectedOutputArtifact
  build_rejected_artifact k raw e = do
    throw_if
        (any (λ c. c.artifact_id == ports.rejected_output_artifact_id) db.rejected_output_artifacts)
        invalid
    content ← rejected_content raw e
    throw_if (not (artifact_schema p (new_artifact k raw content))) malformed
    ok (new_artifact k raw content)
