-- ===== src/Decision/Once.antt =====
-- The guarantees of `normalizeAndConsumeDecision` in
-- apps/server/src/epochguard/decision-parser.ts.
use epochguard.Prelude.{
  String, ◌≡◌, ◌≢◌, ◌∙◌, sym, refl, ap, inl, [], ◌∷◌, arith, ◌==◌, string_eq, filter, update_first,
  ok, Member-filter, eq_of_beq, beq_refl, filter-update_first_within,
}
use epochguard.Platform.{Platform}
use epochguard.Contract.RecordStates.{AttemptState, AssignmentState}
use epochguard.Contract.Records.{RunAssignment, AgentAttempt}
use epochguard.Contract.Database.{EpochDatabase}
use epochguard.Decision.Consume.{
  is_attempt, is_assignment, consumed_assignment, normalize_and_consume,
}
use epochguard.Decision.Subject.{ConsumePorts, NormalizationResult, Consumption}
use epochguard.Decision.Consumed.{Found, Ending, accepts, rejects, consume-Consumed, consume-bound}

module _ (p : Platform) (ports : ConsumePorts) (db : EpochDatabase) (attempt_id raw : String) where
  -- Either ending changes the state of the Assignment, and keeps the identifiers.
  record Spent (k : Consumption) (db' : EpochDatabase) : Type 0 where
    pub attempt_after : AgentAttempt → AgentAttempt
    pub assignment_after : RunAssignment → RunAssignment
    pub attempts : db'.attempts ≡ update_first (is_attempt p ports db k) attempt_after db.attempts
    pub assignments :
        db'.run_assignments
        ≡ update_first (is_assignment p ports db k) assignment_after db.run_assignments
    pub same_attempt : (t : AgentAttempt) → (attempt_after t).attempt_id ≡ t.attempt_id
    pub same_link : (t : AgentAttempt) → (attempt_after t).assignment_id ≡ t.assignment_id
    pub same_assignment : (a : RunAssignment) → (assignment_after a).assignment_id ≡ a.assignment_id
    pub spent : (a : RunAssignment) → (assignment_after a).status ≢ AssignmentState.bound

  Ending-Spent :
      (k : Consumption) (r : NormalizationResult) (db' : EpochDatabase)
      → Ending p ports db k raw (r, db')
      → Spent k db'
  Ending-Spent k r db' (accepts e run _ _ _ _ _ written) = record {
    attempt_after = λ c. record c { status = AttemptState.accepted };
    assignment_after = consumed_assignment p ports db;
    attempts = ap (λ x. x.1.attempts) written;
    assignments = ap (λ x. x.1.run_assignments) written;
    same_attempt = λ t. refl;
    same_link = λ t. refl;
    same_assignment = λ a. refl;
    spent = λ a e. absurd (ground arith);
  }
  Ending-Spent k r db' (rejects e artifact _ _ written) = record {
    attempt_after = λ c. record c { status = AttemptState.output_rejected };
    assignment_after = λ c. record c { status = AssignmentState.rejected };
    attempts = ap (λ x. x.1.attempts) written;
    assignments = ap (λ x. x.1.run_assignments) written;
    same_attempt = λ t. refl;
    same_link = λ t. refl;
    same_assignment = λ a. refl;
    spent = λ a e. absurd (ground arith);
  }

  -- The Assignment that a consumption finds after a consumption of the same Attempt.
  assignment_again :
      (k : Consumption) (db' : EpochDatabase) (ports' : ConsumePorts) (next : Consumption)
      → Found p ports db attempt_id k
      → (s : Spent k db') → Found p ports' db' attempt_id next
      → next.assignment ≡ s.assignment_after k.assignment
  assignment_again k db' ports' next found s again =
      let (_, own) =
        Member-filter (λ c. c.attempt_id == attempt_id) k.attempt db.attempts
          (rw found.attempt (inl refl)) in
      let named : k.attempt.attempt_id ≡ attempt_id =
        eq_of_beq k.attempt.attempt_id attempt_id own in
      let (_, linked) =
        Member-filter (is_assignment p ports db k) k.assignment db.run_assignments
          (rw found.assignment (inl refl)) in
      let attempts : filter (λ c. c.attempt_id == attempt_id) db'.attempts
          ≡ s.attempt_after k.attempt ∷ [] =
        ap (filter (λ c. c.attempt_id == attempt_id)) s.attempts
        ∙ filter-update_first_within (λ c. c.attempt_id == attempt_id) (is_attempt p ports db k)
            s.attempt_after k.attempt (λ y e. rw (← named) e) (beq_refl k.attempt.attempt_id)
            (rw (s.same_attempt, named) (beq_refl attempt_id)) db.attempts found.attempt in
      let assignments : filter (is_assignment p ports db k) db'.run_assignments
          ≡ s.assignment_after k.assignment ∷ [] =
        ap (filter (is_assignment p ports db k)) s.assignments
        ∙ filter-update_first_within (is_assignment p ports db k) (is_assignment p ports db k)
            s.assignment_after k.assignment (λ y e. e) linked (rw (s.same_assignment) linked)
            db.run_assignments found.assignment in
      let attempt : next.attempt ≡ s.attempt_after k.attempt =
        head_same next.attempt _ (sym again.attempt ∙ attempts) in
      let link : next.attempt.assignment_id ≡ k.attempt.assignment_id =
        ap (λ t. t.assignment_id) attempt ∙ s.same_link k.attempt in
      head_same next.assignment _ (sym again.assignment ∙ rw link assignments)
    where
      head_same : {A : Type 0} → (x y : A) → x ∷ [] ≡ y ∷ [] → x ≡ y
      head_same x y e = ground arith

  -- An Attempt is consumed once: after a consumption that returns, whether it accepted the output or
  -- rejected it, a consumption of the same Attempt throws on the database that it left, whatever the
  -- output, the parser and the identifiers are.
  pub consume_once :
      (r : NormalizationResult) (db' : EpochDatabase)
      → normalize_and_consume p ports db attempt_id raw ≡ ok (r, db')
      → (ports' : ConsumePorts) (raw' : String) (x : NormalizationResult × EpochDatabase)
      → normalize_and_consume p ports' db' attempt_id raw' ≢ ok x
  consume_once r db' h ports' raw' x again =
      let first = consume-Consumed p ports db attempt_id raw (r, db') h in
      let second = consume-Consumed p ports' db' attempt_id raw' x again in
      let s = Ending-Spent first.subject r db' first.ending in
      let same =
        assignment_again first.subject db' ports' second.subject first.found s second.found in
      let bound = consume-bound p ports' db' raw' second.subject second.checked in
      s.spent first.subject.assignment (ap (λ a. a.status) (sym same) ∙ bound)
