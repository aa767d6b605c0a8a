-- ===== src/Decision/Accepted.antt =====
-- What an accepted and a rejected output leave, in `normalizeAndConsumeDecision` of
-- apps/server/src/epochguard/decision-parser.ts.
use epochguard.Prelude.{
  String, ◌≡◌, ◌∙◌, refl, ap, false, Option, none, some, List, [], ◌∷◌, ◌++◌, arith, ◌==◌,
  string_eq, any, ok, err, eq_of_bne, IsUniqueBy, append-IsUniqueBy, update_first-IsUniqueBy,
  any-update_first, filter_of_any, update_first,
}
use epochguard.Platform.{Platform}
use epochguard.Contract.RecordStates.{AssignmentState, DecisionState}
use epochguard.Contract.Records.{DependencyCertificate, role_id}
use epochguard.Contract.Database.{RejectedOutputArtifact, EpochDatabase}
use epochguard.Decision.Envelope.{AgentDecisionEnvelope, EnvelopeError, parse_decision_envelope}
use epochguard.Decision.Consume.{
  check_envelope, supersede, superseded_by, new_decision, normalize_and_consume,
}
use epochguard.Decision.Subject.{
  accepted, output_rejected, ConsumePorts, NormalizationResult, Consumption,
}
use epochguard.Decision.Consumed.{Found, Ending, accepts, rejects, consume-Consumed, consume-bound}

module _ (p : Platform) (ports : ConsumePorts) (db : EpochDatabase) (attempt_id raw : String) where
  -- What stands behind an accepted decision: the output parsed to an envelope, with the Assignment's
  -- Receipt and nonce.
  pub record IsAccepted (d : DependencyCertificate) (db' : EpochDatabase) : Type 0 where
    pub subject : Consumption
    pub envelope : AgentDecisionEnvelope
    pub found : Found p ports db attempt_id subject
    pub was_bound : subject.assignment.status ≡ AssignmentState.bound
    pub parsed : parse_decision_envelope p ports.parse_json raw ≡ ok envelope
    pub verdict : d.verdict ≡ envelope.verdict
    pub receipt : d.receipt_id ≡ subject.receipt.receipt_id
    pub nonce : envelope.nonce ≡ subject.receipt.nonce
    pub speaks_of : envelope.run_assignment_id ≡ subject.assignment.assignment_id
    pub ran : subject.assignment.bound_run_id ≡ some d.run_id
    pub active : d.status ≡ DecisionState.active
    pub unused : any (λ c. c.certificate_id == d.certificate_id) db.decisions ≡ false
    pub decisions :
        db'.decisions
        ≡ supersede p ports db
            (role_id subject.session.active_decision_certificate_ids subject.assignment.role)
            db.decisions
          ++ d ∷ []
    pub superseded :
        (old : String)
        → role_id subject.session.active_decision_certificate_ids subject.assignment.role ≡ some old
        → db'.decisions
          ≡ update_first
              (λ c. c.certificate_id == old)
              (λ c. record c {
                status = DecisionState.superseded;
                superseded_by_certificate_id = some d.certificate_id;
              })
              db.decisions
            ++ d ∷ []
    pub artifacts : db'.rejected_output_artifacts ≡ db.rejected_output_artifacts

  envelope_facts :
      (k : Consumption) (e : AgentDecisionEnvelope)
      → check_envelope p ports db k e ≡ ok tt
      → (e.nonce ≡ k.receipt.nonce) × (e.run_assignment_id ≡ k.assignment.assignment_id)
  unfolding check_envelope
  envelope_facts k e h = (
    eq_of_bne e.nonce k.receipt.nonce (ground arith),
    eq_of_bne e.run_assignment_id k.assignment.assignment_id (ground arith),
  )

  -- A decision is accepted only of a BOUND Assignment, whose only Attempt and Receipt are found, and
  -- of an output that parses to an envelope with the Receipt's nonce. The decision is ACTIVE, has the
  -- envelope's verdict, binds the Receipt and the Assignment's Run, has an identifier that no other
  -- had, and is added to the Decisions, of which the one that was active for its role, where there was
  -- one, becomes SUPERSEDED by it.
  pub consume-IsAccepted :
      (d : DependencyCertificate) (db' : EpochDatabase)
      → normalize_and_consume p ports db attempt_id raw ≡ ok (accepted d, db')
      → IsAccepted d db'
  consume-IsAccepted d db' h =
      let k = consume-Consumed p ports db attempt_id raw (accepted d, db') h in
      from_ending k.subject k.found (consume-bound p ports db raw k.subject k.checked) k.ending
    where
      from_ending :
          (k : Consumption)
          → Found p ports db attempt_id k
          → k.assignment.status ≡ AssignmentState.bound
          → Ending p ports db k raw (accepted d, db')
          → IsAccepted d db'
      from_ending k found bound (rejects e artifact _ _ written) =
          let told = ap (λ x. x.0) written in absurd (ground arith)
      from_ending k found bound (accepts e run parsed fits unused free ran written) =
          let told = ap (λ x. x.0) written in
          let same : d ≡ new_decision p ports db k run e = ground arith in
          let (nonce, speaks_of) = envelope_facts k e fits in
          record {
            subject = k;
            envelope = e;
            found = found;
            was_bound = bound;
            parsed = parsed;
            verdict = rw same refl;
            receipt = rw same refl;
            nonce = nonce;
            speaks_of = speaks_of;
            ran = rw same ran;
            active = rw same refl;
            unused = rw same unused;
            decisions = rw same (ap (λ x. x.1.decisions) written);
            superseded = λ old active. rw same (
                ap (λ x. x.1.decisions) written
                ∙ ap
                    (λ o.
                      supersede p ports db o db.decisions ++ new_decision p ports db k run e ∷ [])
                    active);
            artifacts = ap (λ x. x.1.rejected_output_artifacts) written;
          }

  -- An output is rejected only if it does not parse. The rejection is kept as one more artifact, and
  -- changes no Decision, no Session, no Receipt and no Effect.
  pub consume_rejected :
      (artifact : RejectedOutputArtifact) (db' : EpochDatabase)
      → normalize_and_consume p ports db attempt_id raw ≡ ok (output_rejected artifact, db')
      → ((e : EnvelopeError) × (parse_decision_envelope p ports.parse_json raw ≡ err e))
        × (db'.rejected_output_artifacts ≡ db.rejected_output_artifacts ++ artifact ∷ [])
        × (db'.decisions ≡ db.decisions)
        × (db'.sessions ≡ db.sessions)
        × (db'.receipts ≡ db.receipts)
        × (db'.effects ≡ db.effects)
  consume_rejected artifact db' h =
      from_ending _
        ((consume-Consumed p ports db attempt_id raw (output_rejected artifact, db') h).ending)
    where
      from_ending :
          (k : Consumption)
          → Ending p ports db k raw (output_rejected artifact, db')
          → ((e : EnvelopeError) × (parse_decision_envelope p ports.parse_json raw ≡ err e))
            × (db'.rejected_output_artifacts ≡ db.rejected_output_artifacts ++ artifact ∷ [])
            × (db'.decisions ≡ db.decisions)
            × (db'.sessions ≡ db.sessions)
            × (db'.receipts ≡ db.receipts)
            × (db'.effects ≡ db.effects)
      from_ending k (accepts e run parsed fits unused free ran written) =
          let told = ap (λ x. x.0) written in absurd (ground arith)
      from_ending k (rejects e made failed built written) =
          let told = ap (λ x. x.0) written in
          let same : artifact ≡ made = ground arith in
          (
            (e, failed),
            rw same (ap (λ x. x.1.rejected_output_artifacts) written),
            ap (λ x. x.1.decisions) written,
            ap (λ x. x.1.sessions) written,
            ap (λ x. x.1.receipts) written,
            ap (λ x. x.1.effects) written,
          )

  supersede-IsUniqueBy :
      (existing : Option String) (ds : List DependencyCertificate)
      → IsUniqueBy (λ d. d.certificate_id) ds
      → IsUniqueBy (λ d. d.certificate_id) (supersede p ports db existing ds)
  supersede-IsUniqueBy none ds once = once
  supersede-IsUniqueBy (some id) ds once =
      update_first-IsUniqueBy (λ d. d.certificate_id) (λ c. c.certificate_id == id)
        (superseded_by p ports db ports.certificate_id) (λ d. refl) ds once

  supersede-any :
      (existing : Option String) (id : String) (ds : List DependencyCertificate)
      → any (λ d. d.certificate_id == id) (supersede p ports db existing ds)
        ≡ any (λ d. d.certificate_id == id) ds
  supersede-any none id ds = refl
  supersede-any (some old) id ds =
      any-update_first (λ d. d.certificate_id) id (λ c. c.certificate_id == old)
        (superseded_by p ports db ports.certificate_id) (λ d. refl) ds

  -- Consumption keeps the identifiers of Decisions distinct.
  pub consume-IsUniqueBy :
      (r : NormalizationResult) (db' : EpochDatabase)
      → normalize_and_consume p ports db attempt_id raw ≡ ok (r, db')
      → IsUniqueBy (λ d. d.certificate_id) db.decisions
      → IsUniqueBy (λ d. d.certificate_id) db'.decisions
  consume-IsUniqueBy (output_rejected artifact) db' h once =
      rw ((consume_rejected artifact db' h).2) once
  consume-IsUniqueBy (accepted d) db' h once =
      let k = consume-IsAccepted d db' h in
      let old =
        role_id k.subject.session.active_decision_certificate_ids k.subject.assignment.role in
      rw k.decisions (
        append-IsUniqueBy (λ d. d.certificate_id) (supersede p ports db old db.decisions) d
          (supersede-IsUniqueBy old db.decisions once)
          (filter_of_any (λ c. c.certificate_id == d.certificate_id)
            (supersede p ports db old db.decisions)
            (supersede-any old d.certificate_id db.decisions ∙ k.unused)))
