-- ===== src/Decision/Bound.antt =====
-- What `resolveBoundDecision` of apps/server/src/epochguard/decision-parser.ts has checked of a
-- Decision, its Assignment, its Attempt and its Receipt.
use epochguard.Prelude.{
  ◌≡◌, inl, inr, some, [], ◌∷◌, arith, ◌==◌, string_eq, option_eq, filter, ok, Result-cases,
  eq_of_bne, refl,
}
use epochguard.Platform.{Platform}
use epochguard.Contract.States.{role_eq}
use epochguard.Contract.RecordStates.{
  AttemptState, AssignmentState, DecisionState, attempt_state_eq, assignment_state_eq,
  decision_state_eq,
}
use epochguard.Contract.Action.{RoleQuerySpec, build_role_query_spec}
use epochguard.Contract.Records.{
  RoleAgentRegistration, RunAssignment, AgentAttempt, ObservationReceipt, DependencyCertificate,
  EpochSession,
}
use epochguard.Contract.Database.{EpochDatabase}
use epochguard.Decision.Binding.{
  BoundDecision, malformed, require_unique, frozen_agent_id, assert_canonical_action,
  assert_role_query_binding, assert_registration_binding, assert_attempt_binding,
  assert_receipt_binding, resolve_bound_decision,
}
use epochguard.Decision.Consumed.{unique-eq}

-- The Attempt and the Assignment of a Session.
pub record IsBoundAttempt (s : EpochSession) (t : AgentAttempt) (a : RunAssignment) : Type 0 where
  pub session : t.session_id ≡ s.session_id
  pub action : t.action_hash ≡ s.action_hash
  pub agent : t.agent_id ≡ a.agent_id
  pub role : t.role ≡ a.role
  pub assigned_session : a.session_id ≡ s.session_id
  pub assigned_action : a.action_hash ≡ s.action_hash
  pub frozen : a.agent_id ≡ frozen_agent_id s a.role
  pub run : a.bound_run_id ≡ t.run_id

assert_attempt_binding-IsBoundAttempt :
    (s : EpochSession) (t : AgentAttempt) (a : RunAssignment)
    → assert_attempt_binding s t a ≡ ok tt
    → IsBoundAttempt s t a
unfolding assert_attempt_binding
assert_attempt_binding-IsBoundAttempt s t a h = record {
  session = eq_of_bne t.session_id s.session_id (ground arith);
  action = eq_of_bne t.action_hash s.action_hash (ground arith);
  agent = eq_of_bne t.agent_id a.agent_id (ground arith);
  role = eq_of_bne t.role a.role (ground arith);
  assigned_session = eq_of_bne a.session_id s.session_id (ground arith);
  assigned_action = eq_of_bne a.action_hash s.action_hash (ground arith);
  frozen = eq_of_bne a.agent_id (frozen_agent_id s a.role) (ground arith);
  run = eq_of_bne a.bound_run_id t.run_id (ground arith);
}

-- The Receipt and its Assignment.
pub record IsBoundReceipt (a : RunAssignment) (r : ObservationReceipt) : Type 0 where
  pub named : r.receipt_id ≡ a.receipt_id
  pub assignment : r.run_assignment_id ≡ a.assignment_id
  pub session : r.session_id ≡ a.session_id
  pub action : r.action_hash ≡ a.action_hash
  pub agent : r.agent_id ≡ a.agent_id
  pub role : r.role ≡ a.role
  pub source : r.source ≡ a.role

assert_receipt_binding-IsBoundReceipt :
    (a : RunAssignment) (r : ObservationReceipt)
    → assert_receipt_binding a r ≡ ok tt
    → IsBoundReceipt a r
unfolding assert_receipt_binding
assert_receipt_binding-IsBoundReceipt a r h = record {
  named = eq_of_bne r.receipt_id a.receipt_id (ground arith);
  assignment = eq_of_bne r.run_assignment_id a.assignment_id (ground arith);
  session = eq_of_bne r.session_id a.session_id (ground arith);
  action = eq_of_bne r.action_hash a.action_hash (ground arith);
  agent = eq_of_bne r.agent_id a.agent_id (ground arith);
  role = eq_of_bne r.role a.role (ground arith);
  source = eq_of_bne r.source a.role (ground arith);
}

module _ (p : Platform) (db : EpochDatabase) (s : EpochSession) where
  -- The registration of the Assignment's role.
  pub record IsRegistered (a : RunAssignment) : Type 0 where
    pub registration : RoleAgentRegistration
    pub alone : filter (λ c. c.role == a.role) db.role_agent_registrations ≡ registration ∷ []
    pub agent : registration.agent_id ≡ a.agent_id
    pub profile : registration.role_profile_version ≡ a.role_profile_version
    pub digest : registration.agents_md_digest ≡ a.agents_md_digest

  assert_registration_binding-IsRegistered :
      (a : RunAssignment) → assert_registration_binding db s a ≡ ok tt → IsRegistered a
  unfolding assert_registration_binding
  assert_registration_binding-IsRegistered a h =
      elim (Result-cases (require_unique db.role_agent_registrations (λ r. r.role == a.role))) [
        | inr (_, e) ↦ absurd (ground arith)
        | inl (r, e) ↦ record {
          registration = r;
          alone = unique-eq db.role_agent_registrations _ r e;
          agent = eq_of_bne r.agent_id a.agent_id (ground arith);
          profile = eq_of_bne r.role_profile_version a.role_profile_version (ground arith);
          digest = eq_of_bne r.agents_md_digest a.agents_md_digest (ground arith);
        }
      ]

  -- The query of the Action for the Assignment's role, which Assignment and Receipt are of.
  pub record IsQueried (a : RunAssignment) (r : ObservationReceipt) : Type 0 where
    pub query : RoleQuerySpec
    pub built : build_role_query_spec p malformed s.action a.role ≡ ok query
    pub assigned : a.query_hash ≡ query.query_hash
    pub received : r.query_hash ≡ query.query_hash
    pub entity : r.entity_key ≡ query.entity_key

  assert_role_query_binding-IsQueried :
      (a : RunAssignment) (r : ObservationReceipt)
      → assert_role_query_binding p db s a r ≡ ok tt
      → IsQueried a r
  unfolding assert_role_query_binding
  assert_role_query_binding-IsQueried a r h =
      elim (Result-cases (build_role_query_spec p malformed s.action a.role)) [
        | inr (_, e) ↦ absurd (ground arith)
        | inl (q, e) ↦ record {
          query = q;
          built = e;
          assigned = eq_of_bne a.query_hash q.query_hash (ground arith);
          received = eq_of_bne r.query_hash q.query_hash (ground arith);
          entity = eq_of_bne r.entity_key q.entity_key (ground arith);
        }
      ]

  -- A Decision and the records that bind it.
  pub record IsBound (d : DependencyCertificate) (b : BoundDecision) : Type 0 where
    pub decision : b.decision ≡ d
    pub session : d.session_id ≡ s.session_id
    pub action : d.action_hash ≡ s.action_hash
    pub active : d.status ≡ DecisionState.active
    pub assignment_alone :
        filter (λ c. c.assignment_id == d.run_assignment_id) db.run_assignments ≡ b.assignment ∷ []
    pub attempt_alone :
        filter (λ c. c.assignment_id == b.assignment.assignment_id) db.attempts ≡ b.attempt ∷ []
    pub receipt_alone : filter (λ c. c.receipt_id == d.receipt_id) db.receipts ≡ b.receipt ∷ []
    pub consumed : b.assignment.status ≡ AssignmentState.consumed
    pub consumed_by : b.assignment.consumed_by_decision_certificate_id ≡ some d.certificate_id
    pub accepted : b.attempt.status ≡ AttemptState.accepted
    pub attempt : IsBoundAttempt s b.attempt b.assignment
    pub receipt : IsBoundReceipt b.assignment b.receipt
    pub registered : IsRegistered b.assignment
    pub queried : IsQueried b.assignment b.receipt
    pub agent : d.agent_id ≡ b.assignment.agent_id
    pub role : d.role ≡ b.assignment.role
    pub run : some d.run_id ≡ b.assignment.bound_run_id
    pub named : d.receipt_id ≡ b.assignment.receipt_id

  pub resolve_bound_decision-IsBound :
      (d : DependencyCertificate) (b : BoundDecision)
      → resolve_bound_decision p db s d ≡ ok b
      → IsBound d b
  unfolding resolve_bound_decision
  resolve_bound_decision-IsBound d b h = elim (Result-cases (assert_canonical_action p s)) [
    | inr (_, e) ↦ absurd (ground arith)
    | inl (_, canonical) ↦
        elim (Result-cases
          (require_unique db.run_assignments (λ c. c.assignment_id == d.run_assignment_id))) [
            | inr (_, e) ↦ absurd (ground arith)
            | inl (a, ea) ↦
                elim (Result-cases
                  (require_unique db.attempts (λ c. c.assignment_id == a.assignment_id))) [
                    | inr (_, e) ↦ absurd (ground arith)
                    | inl (t, et) ↦
                        elim (Result-cases
                          (require_unique db.receipts (λ c. c.receipt_id == d.receipt_id))) [
                            | inr (_, e) ↦ absurd (ground arith)
                            | inl (r, er) ↦ found canonical a t r ea et er
                          ]
                  ]
          ]
  ]
    where
      found :
          assert_canonical_action p s ≡ ok tt
          → (a : RunAssignment) (t : AgentAttempt) (r : ObservationReceipt)
          → require_unique db.run_assignments (λ c. c.assignment_id == d.run_assignment_id) ≡ ok a
          → require_unique db.attempts (λ c. c.assignment_id == a.assignment_id) ≡ ok t
          → require_unique db.receipts (λ c. c.receipt_id == d.receipt_id) ≡ ok r
          → IsBound d b
      found canonical a t r ea et er = elim (Result-cases (assert_attempt_binding s t a)) [
        | inr (_, e) ↦ absurd (ground arith)
        | inl (_, e1) ↦ elim (Result-cases (assert_receipt_binding a r)) [
          | inr (_, e) ↦ absurd (ground arith)
          | inl (_, e2) ↦ elim (Result-cases (assert_registration_binding db s a)) [
            | inr (_, e) ↦ absurd (ground arith)
            | inl (_, e3) ↦ elim (Result-cases (assert_role_query_binding p db s a r)) [
              | inr (_, e) ↦ absurd (ground arith)
              | inl (_, e4) ↦
                  let bound : BoundDecision = record {
                    decision = d;
                    assignment = a;
                    attempt = t;
                    receipt = r;
                  } in
                  let same : bound ≡ b = ground arith in
                  rw (← same) (record {
                    decision = refl;
                    session = eq_of_bne d.session_id s.session_id (ground arith);
                    action = eq_of_bne d.action_hash s.action_hash (ground arith);
                    active = eq_of_bne d.status DecisionState.active (ground arith);
                    assignment_alone = unique-eq db.run_assignments _ a ea;
                    attempt_alone = unique-eq db.attempts _ t et;
                    receipt_alone = unique-eq db.receipts _ r er;
                    consumed = eq_of_bne a.status AssignmentState.consumed (ground arith);
                    consumed_by =
                        eq_of_bne a.consumed_by_decision_certificate_id (some d.certificate_id)
                          (ground arith);
                    accepted = eq_of_bne t.status AttemptState.accepted (ground arith);
                    attempt = assert_attempt_binding-IsBoundAttempt s t a e1;
                    receipt = assert_receipt_binding-IsBoundReceipt a r e2;
                    registered = assert_registration_binding-IsRegistered a e3;
                    queried = assert_role_query_binding-IsQueried a r e4;
                    agent = eq_of_bne d.agent_id a.agent_id (ground arith);
                    role = eq_of_bne d.role a.role (ground arith);
                    run = eq_of_bne (some d.run_id) a.bound_run_id (ground arith);
                    named = eq_of_bne d.receipt_id a.receipt_id (ground arith);
                  })
            ]
          ]
        ]
      ]
