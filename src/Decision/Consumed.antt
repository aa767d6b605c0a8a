-- ===== src/Decision/Consumed.antt =====
-- What `normalizeAndConsumeDecision` of apps/server/src/epochguard/decision-parser.ts has found and
-- written when it returns.
use epochguard.Prelude.{
  String, ◌≡◌, ◌∙◌, refl, ap, inl, inr, Bool, false, some, List, [], ◌∷◌, arith, ◌==◌, string_eq,
  filter, any, single, single-eq, ok, err, Result-cases, Option-cases, eq_of_bne,
}
use epochguard.Platform.{Platform}
use epochguard.Contract.RecordStates.{AssignmentState, assignment_state_eq}
use epochguard.Contract.Records.{
  RunAssignment, AgentAttempt, ObservationReceipt, EpochSession, role_id,
}
use epochguard.Contract.Database.{RejectedOutputArtifact, EpochDatabase}
use epochguard.Decision.Binding.{require_unique, assert_canonical_action}
use epochguard.Decision.Envelope.{
  AgentDecisionEnvelope, EnvelopeError, Enveloped, parse_decision_envelope,
}
use epochguard.Decision.Consume.{
  write_rejection, reject_output, check_envelope, check_existing, new_decision, write_decision,
  accept_envelope, accept_or_reject, normalize_and_consume,
}
use epochguard.Decision.Subject.{
  accepted, output_rejected, ConsumePorts, NormalizationResult, Consumption, find_consumption,
  check_available, check_consumption, build_rejected_artifact,
}

pub unique-eq :
    {A : Type 0} (xs : List A) (q : A → Bool) (x : A)
    → require_unique xs q ≡ ok x
    → filter q xs ≡ x ∷ []
unfolding require_unique
unique-eq xs q x h = elim (Option-cases (single (filter q xs))) [
  | inl e ↦ absurd (ground arith)
  | inr (y, e) ↦ let same : y ≡ x = ground arith in single-eq (filter q xs) x (e ∙ ap some same)
]

module _ (p : Platform) (ports : ConsumePorts) (db : EpochDatabase) where
  -- The records of a consumption are the only ones with their identifiers.
  pub record Found (attempt_id : String) (k : Consumption) : Type 0 where
    pub attempt : filter (λ c. c.attempt_id == attempt_id) db.attempts ≡ k.attempt ∷ []
    pub assignment :
        filter (λ c. c.assignment_id == k.attempt.assignment_id) db.run_assignments
        ≡ k.assignment ∷ []
    pub session : filter (λ c. c.session_id == k.assignment.session_id) db.sessions ≡ k.session ∷ []
    pub receipt : filter (λ c. c.receipt_id == k.assignment.receipt_id) db.receipts ≡ k.receipt ∷ []

  find_consumption-Found :
      (attempt_id : String) (k : Consumption)
      → find_consumption p ports db attempt_id ≡ ok k
      → Found attempt_id k
  unfolding find_consumption
  find_consumption-Found attempt_id k h =
      elim (Result-cases (require_unique db.attempts (λ c. c.attempt_id == attempt_id))) [
        | inr (_, e) ↦ absurd (ground arith)
        | inl (t, et) ↦
            elim (Result-cases
              (require_unique db.run_assignments (λ c. c.assignment_id == t.assignment_id))) [
                | inr (_, e) ↦ absurd (ground arith)
                | inl (a, ea) ↦
                    elim (Result-cases
                      (require_unique db.sessions (λ c. c.session_id == a.session_id))) [
                        | inr (_, e) ↦ absurd (ground arith)
                        | inl (s, es) ↦
                            elim (Result-cases
                              (require_unique db.receipts (λ c. c.receipt_id == a.receipt_id))) [
                                | inr (_, e) ↦ absurd (ground arith)
                                | inl (r, er) ↦
                                    let same : record {
                                      attempt = t;
                                      assignment = a;
                                      session = s;
                                      receipt = r;
                                    }
                                        ≡ k =
                                      made t a s r et ea es er in
                                    rw (← same) (record {
                                      attempt = unique-eq db.attempts _ t et;
                                      assignment = unique-eq db.run_assignments _ a ea;
                                      session = unique-eq db.sessions _ s es;
                                      receipt = unique-eq db.receipts _ r er;
                                    })
                              ]
                      ]
              ]
      ]
    where
      made :
          (t : AgentAttempt) (a : RunAssignment) (s : EpochSession) (r : ObservationReceipt)
          → require_unique db.attempts (λ c. c.attempt_id == attempt_id) ≡ ok t
          → require_unique db.run_assignments (λ c. c.assignment_id == t.assignment_id) ≡ ok a
          → require_unique db.sessions (λ c. c.session_id == a.session_id) ≡ ok s
          → require_unique db.receipts (λ c. c.receipt_id == a.receipt_id) ≡ ok r
          → record { attempt = t; assignment = a; session = s; receipt = r } ≡ k
      made t a s r et ea es er = ground arith

  -- How the consumption returns.
  pub data Ending (k : Consumption) (raw : String) (x : NormalizationResult × EpochDatabase)
      : Type 0 where
    accepts :
        (e : AgentDecisionEnvelope) (run : String)
        → parse_decision_envelope p ports.parse_json raw ≡ ok e
        → check_envelope p ports db k e ≡ ok tt
        → any (λ c. c.certificate_id == ports.certificate_id) db.decisions ≡ false
        → check_existing p ports db k
            (role_id k.session.active_decision_certificate_ids k.assignment.role)
          ≡ ok tt
        → k.assignment.bound_run_id ≡ some run
        → x ≡ (
          accepted (new_decision p ports db k run e),
          write_decision p ports db k (new_decision p ports db k run e),
        )
        → Ending k raw x
    rejects :
        (e : EnvelopeError) (artifact : RejectedOutputArtifact)
        → parse_decision_envelope p ports.parse_json raw ≡ err e
        → build_rejected_artifact p ports db k raw e ≡ ok artifact
        → x ≡ (output_rejected artifact, write_rejection p ports db k artifact)
        → Ending k raw x

  accept_envelope-Ending :
      (k : Consumption) (raw : String) (e : AgentDecisionEnvelope)
      (x : NormalizationResult × EpochDatabase)
      → parse_decision_envelope p ports.parse_json raw ≡ ok e
      → accept_envelope p ports db k e ≡ ok x
      → Ending k raw x
  unfolding accept_envelope
  accept_envelope-Ending k raw e x parsed h = elim (Result-cases (check_envelope p ports db k e)) [
    | inr (_, f) ↦ absurd (ground arith)
    | inl (_, fits) ↦
        elim (Result-cases (
          check_existing p ports db k
            (role_id k.session.active_decision_certificate_ids k.assignment.role))) [
              | inr (_, f) ↦ absurd (ground arith)
              | inl (_, free) ↦ elim (Option-cases k.assignment.bound_run_id) [
                | inl f ↦ absurd (ground arith)
                | inr (run, bound) ↦
                    let (unused, written) = facts run fits free bound in
                    accepts e run parsed fits unused free bound written
              ]
            ]
  ]
    where
      facts :
          (run : String)
          → check_envelope p ports db k e ≡ ok tt
          → check_existing p ports db k
              (role_id k.session.active_decision_certificate_ids k.assignment.role)
            ≡ ok tt
          → k.assignment.bound_run_id ≡ some run
          → (any (λ c. c.certificate_id == ports.certificate_id) db.decisions ≡ false)
            × (x ≡ (
              accepted (new_decision p ports db k run e),
              write_decision p ports db k (new_decision p ports db k run e),
            ))
      facts run fits free bound = (ground arith, ground arith)

  reject_output-Ending :
      (k : Consumption) (raw : String) (e : EnvelopeError) (x : NormalizationResult × EpochDatabase)
      → parse_decision_envelope p ports.parse_json raw ≡ err e
      → reject_output p ports db k raw e ≡ ok x
      → Ending k raw x
  unfolding reject_output
  reject_output-Ending k raw e x parsed h =
      elim (Result-cases (build_rejected_artifact p ports db k raw e)) [
        | inr (_, f) ↦ absurd (ground arith)
        | inl (artifact, built) ↦ rejects e artifact parsed built (ground arith)
      ]

  -- A consumption that returns.
  pub record Consumed (attempt_id raw : String) (x : NormalizationResult × EpochDatabase)
      : Type 0 where
    pub subject : Consumption
    pub found : Found attempt_id subject
    pub checked : check_consumption p ports db raw subject ≡ ok tt
    pub ending : Ending subject raw x

  pub consume-Consumed :
      (attempt_id raw : String) (x : NormalizationResult × EpochDatabase)
      → normalize_and_consume p ports db attempt_id raw ≡ ok x
      → Consumed attempt_id raw x
  unfolding normalize_and_consume
  consume-Consumed attempt_id raw x h =
      elim (Result-cases (find_consumption p ports db attempt_id)) [
        | inr (_, e) ↦ absurd (ground arith)
        | inl (k, found) ↦ elim (Result-cases (check_consumption p ports db raw k)) [
          | inr (_, e) ↦ absurd (ground arith)
          | inl (_, checked) ↦ record {
            subject = k;
            found = find_consumption-Found attempt_id k found;
            checked = checked;
            ending = ended k (parse_decision_envelope p ports.parse_json raw) refl (ground arith);
          }
        ]
      ]
    where
      ended :
          (k : Consumption) (parsed : Enveloped AgentDecisionEnvelope)
          → parse_decision_envelope p ports.parse_json raw ≡ parsed
          → accept_or_reject p ports db k raw parsed ≡ ok x
          → Ending k raw x
      ended k (ok e) same went = accept_envelope-Ending k raw e x same went
      ended k (err e) same went = reject_output-Ending k raw e x same went

  available-bound :
      (k : Consumption)
      → check_available p ports db k ≡ ok tt
      → k.assignment.status ≡ AssignmentState.bound
  unfolding check_available
  available-bound k h = eq_of_bne k.assignment.status AssignmentState.bound (ground arith)

  -- The Assignment of a consumption is BOUND.
  pub consume-bound :
      (raw : String) (k : Consumption)
      → check_consumption p ports db raw k ≡ ok tt
      → k.assignment.status ≡ AssignmentState.bound
  unfolding check_consumption
  consume-bound raw k h = elim (Result-cases (assert_canonical_action p k.session)) [
    | inr (_, e) ↦ absurd (ground arith)
    | inl (_, e) ↦ elim (Result-cases (check_available p ports db k)) [
      | inr (_, f) ↦ absurd (ground arith)
      | inl (_, f) ↦ available-bound k f
    ]
  ]
