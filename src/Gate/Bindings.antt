-- ===== src/Gate/Bindings.antt =====
-- What the look-ups of a Decision, its Assignment and its Receipt in the evidence loop of
-- `commitProtectedEffect`, apps/server/src/epochguard/effect-gate.ts, have checked.
use epochguard.Prelude.{
  ℕ, String, ◌≡◌, inl, inr, some, arith, Result-cases, single, filter, ok, ◌==◌, string_eq,
  Option-cases, [], ◌∷◌, single-eq, eq_of_bne, nat_eq, option_eq,
}
use text.Mathlib.TextEquality.{eq_iff}
use epochguard.Platform.{Platform}
use epochguard.Contract.States.{Role, Verdict, role_eq, verdict_eq}
use epochguard.Contract.RecordStates.{
  AssignmentState, DecisionState, assignment_state_eq, decision_state_eq,
}
use epochguard.Contract.Action.{RoleQuerySpec, build_role_query_spec}
use epochguard.Decision.Binding.{frozen_agent_id}
use epochguard.Contract.Records.{
  RunAssignment, ObservationReceipt, DependencyCertificate, EpochSession,
}
use epochguard.Contract.Database.{EpochDatabase}
use epochguard.Gate.Base.{FrozenRegistrations, malformed}
use epochguard.Gate.Evidence.{role_decision, role_assignment, role_receipt}

module _ (p : Platform) (db : EpochDatabase) (s : EpochSession) (hash : String) (n : ℕ)
    (role : Role) where
  -- An active ALLOW of the Session, the Action and the role.
  pub record IsAllow (id : String) (d : DependencyCertificate) : Type 0 where
    pub only : filter (λ c. c.certificate_id == id) db.decisions ≡ d ∷ []
    pub active : d.status ≡ DecisionState.active
    pub allows : d.verdict ≡ Verdict.allow
    pub same_session : d.session_id ≡ s.session_id
    pub same_action : d.action_hash ≡ hash
    pub same_role : d.role ≡ role
    pub same_agent : d.agent_id ≡ frozen_agent_id s role

  -- The Assignment that the Decision consumed.
  pub record IsConsumedBy (d : DependencyCertificate) (a : RunAssignment) : Type 0 where
    pub only : filter (λ c. c.assignment_id == d.run_assignment_id) db.run_assignments ≡ a ∷ []
    pub status : a.status ≡ AssignmentState.consumed
    pub run : a.bound_run_id ≡ some d.run_id
    pub consumer : a.consumed_by_decision_certificate_id ≡ some d.certificate_id
    pub session : a.session_id ≡ s.session_id
    pub action : a.action_hash ≡ hash
    pub agent : a.agent_id ≡ frozen_agent_id s role
    pub assigned_role : a.role ≡ role
    pub receipt : a.receipt_id ≡ d.receipt_id

  -- The Receipt on which the Decision rests, for the query of the Action and the role.
  pub record IsReceiptOf (d : DependencyCertificate) (a : RunAssignment) (r : ObservationReceipt)
      : Type 0 where
    pub only : filter (λ c. c.receipt_id == d.receipt_id) db.receipts ≡ r ∷ []
    pub session : r.session_id ≡ s.session_id
    pub action : r.action_hash ≡ hash
    pub agent : r.agent_id ≡ frozen_agent_id s role
    pub assignment : r.run_assignment_id ≡ a.assignment_id
    pub received_role : r.role ≡ role
    pub source : r.source ≡ role
    pub query : RoleQuerySpec
    pub built : build_role_query_spec p malformed s.action role ≡ ok query
    pub assigned : a.query_hash ≡ query.query_hash
    pub asked : r.query_hash ≡ query.query_hash
    pub entity : r.entity_key ≡ query.entity_key

  pub role_assignment-IsConsumedBy :
      (f : FrozenRegistrations) (d : DependencyCertificate) (a : RunAssignment)
      → role_assignment p db s hash n role f d ≡ ok a
      → IsConsumedBy d a
  unfolding role_assignment
  role_assignment-IsConsumedBy f d a h =
      elim (Option-cases
        (single (filter (λ c. c.assignment_id == d.run_assignment_id) db.run_assignments))) [
          | inl e ↦ absurd (ground arith)
          | inr (x, e) ↦
              let same : x ≡ a = ground arith in
              rw (← same) (record {
                only = single-eq _ x e;
                status = eq_of_bne x.status AssignmentState.consumed (ground arith);
                run = eq_of_bne x.bound_run_id (some d.run_id) (ground arith);
                consumer =
                    eq_of_bne x.consumed_by_decision_certificate_id (some d.certificate_id)
                      (ground arith);
                session = eq_of_bne x.session_id s.session_id (ground arith);
                action = eq_of_bne x.action_hash hash (ground arith);
                agent = eq_of_bne x.agent_id (frozen_agent_id s role) (ground arith);
                assigned_role = eq_of_bne x.role role (ground arith);
                receipt = eq_of_bne x.receipt_id d.receipt_id (ground arith);
              })
        ]

  pub role_receipt-IsReceiptOf :
      (d : DependencyCertificate) (a : RunAssignment) (r : ObservationReceipt)
      → role_receipt p db s hash n role d a ≡ ok r
      → IsReceiptOf d a r
  unfolding role_receipt
  role_receipt-IsReceiptOf d a r h =
      elim (Option-cases (single (filter (λ c. c.receipt_id == d.receipt_id) db.receipts))) [
        | inl e ↦ absurd (ground arith)
        | inr (x, e) ↦ elim (Result-cases (build_role_query_spec p malformed s.action role)) [
          | inr (_, e') ↦ absurd (ground arith)
          | inl (q, built) ↦
              let same : x ≡ r = ground arith in
              rw (← same) (record {
                only = single-eq _ x e;
                session = eq_of_bne x.session_id s.session_id (ground arith);
                action = eq_of_bne x.action_hash hash (ground arith);
                agent = eq_of_bne x.agent_id (frozen_agent_id s role) (ground arith);
                assignment = eq_of_bne x.run_assignment_id a.assignment_id (ground arith);
                received_role = eq_of_bne x.role role (ground arith);
                source = eq_of_bne x.source role (ground arith);
                query = q;
                built = built;
                assigned = eq_of_bne a.query_hash q.query_hash (ground arith);
                asked = eq_of_bne x.query_hash q.query_hash (ground arith);
                entity = eq_of_bne x.entity_key q.entity_key (ground arith);
              })
        ]
      ]

  pub role_decision-IsAllow :
      (id : String) (d : DependencyCertificate)
      → role_decision p db s hash n role id ≡ ok d
      → IsAllow id d
  unfolding role_decision
  role_decision-IsAllow id d h =
      elim (Option-cases (single (filter (λ c. c.certificate_id == id) db.decisions))) [
        | inl e ↦ absurd (ground arith)
        | inr (c, e) ↦
            let same : c ≡ d = ground arith in
            rw (← same) (record {
              only = single-eq _ c e;
              active = (decision_state_eq.beq_iff c.status DecisionState.active).0 (ground arith);
              allows = (verdict_eq.beq_iff c.verdict Verdict.allow).0 (ground arith);
              same_session = ground (arith, eq_iff c.session_id s.session_id);
              same_action = ground (arith, eq_iff c.action_hash hash);
              same_role = (role_eq.beq_iff c.role role).0 (ground arith);
              same_agent = eq_of_bne c.agent_id (frozen_agent_id s role) (ground arith);
            })
      ]
