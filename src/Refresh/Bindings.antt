-- ===== src/Refresh/Bindings.antt =====
-- What the look-ups of a Decision, its Receipt and its version in `buildRefreshPlan` of
-- apps/server/src/epochguard/refresh-planner.ts have checked.
use epochguard.Prelude.{
  String, ◌≡◌, inl, inr, false, none, some, [], ◌∷◌, arith, ◌==◌, string_eq, filter, single, ok,
  Result-cases, Option-cases, single-filter, eq_of_beq, eq_of_bne, ◌!=◌, nat_eq, ◌≤◌, ltb, ltb→ge,
  single-eq, none_of_is_null, option_eq,
}
use epochguard.Platform.{Platform}
use epochguard.Contract.States.{Role, roles, role_eq}
use epochguard.Contract.RecordStates.{DecisionState, decision_state_eq}
use epochguard.Contract.Json.{value_digest}
use epochguard.Contract.Records.{
  ResourceVersion, ObservationReceipt, DependencyCertificate, EpochSession,
}
use epochguard.Contract.Database.{ValidationRecord, EpochDatabase}
use epochguard.Decision.Binding.{frozen_agent_id}
use epochguard.Refresh.{RefreshPorts}
use epochguard.Refresh.Owners.{role_for_agent}
use epochguard.Refresh.Gather.{plan_decision, plan_receipt, plan_version}

role_for_agent-eq :
    (s : EpochSession) (agent : String) (r : Role)
    → role_for_agent s agent ≡ ok r
    → frozen_agent_id s r ≡ agent
unfolding role_for_agent
role_for_agent-eq s agent r h =
    elim (Option-cases (single (filter (λ r. frozen_agent_id s r == agent) roles))) [
      | inl e ↦ absurd (ground arith)
      | inr (x, e) ↦
          let (_, owned) = single-filter (λ r. frozen_agent_id s r == agent) roles x e in
          let same : x ≡ r = ground arith in
          rw (← same) (eq_of_beq (frozen_agent_id s x) agent owned)
    ]

module _ (p : Platform) (ports : RefreshPorts) (db : EpochDatabase) (s : EpochSession) where
  -- The Decision of one role: an ACTIVE one of the Session and the Action, of the frozen agent.
  pub record IsDecisionOf (role : Role) (id : String) (d : DependencyCertificate) : Type 0 where
    pub only : filter (λ c. c.certificate_id == id) db.decisions ≡ d ∷ []
    pub active : d.status ≡ DecisionState.active
    pub current : d.superseded_by_certificate_id ≡ none
    pub session : d.session_id ≡ s.session_id
    pub action : d.action_hash ≡ s.action_hash
    pub decided_role : d.role ≡ role
    pub agent : frozen_agent_id s role ≡ d.agent_id

  pub plan_decision-IsDecisionOf :
      (role : Role) (id : String) (d : DependencyCertificate)
      → plan_decision p ports db s role id ≡ ok d
      → IsDecisionOf role id d
  unfolding plan_decision
  plan_decision-IsDecisionOf role id d h =
      elim (Option-cases (single (filter (λ c. c.certificate_id == id) db.decisions))) [
        | inl e ↦ absurd (ground arith)
        | inr (x, e) ↦ elim (Result-cases (role_for_agent s x.agent_id)) [
          | inr (_, failed) ↦ absurd (ground arith)
          | inl (owner, owned) ↦
              let same : x ≡ d = ground arith in
              let owner_role : owner ≡ role = eq_of_bne owner role (ground arith) in
              rw (← same) (record {
                only = single-eq _ x e;
                active = eq_of_bne x.status DecisionState.active (ground arith);
                current = none_of_is_null x.superseded_by_certificate_id (ground arith);
                session = eq_of_bne x.session_id s.session_id (ground arith);
                action = eq_of_bne x.action_hash s.action_hash (ground arith);
                decided_role = eq_of_bne x.role role (ground arith);
                agent = rw (← owner_role) (role_for_agent-eq s x.agent_id owner owned);
              })
        ]
      ]

  -- The Receipt of a Decision, observed by the validated head.
  pub record IsReceiptOf (v : ValidationRecord) (role : Role) (d : DependencyCertificate)
      (r : ObservationReceipt) : Type 0 where
    pub only : filter (λ c. c.receipt_id == d.receipt_id) db.receipts ≡ r ∷ []
    pub session : r.session_id ≡ s.session_id
    pub action : r.action_hash ≡ s.action_hash
    pub agent : r.agent_id ≡ d.agent_id
    pub assignment : r.run_assignment_id ≡ d.run_assignment_id
    pub received_role : r.role ≡ role
    pub source : r.source ≡ role
    pub observed : r.observed_at_seq ≤ v.validated_head

  receipt_facts :
      (v : ValidationRecord) (role : Role) (d : DependencyCertificate) (x r : ObservationReceipt)
      → single (filter (λ c. c.receipt_id == d.receipt_id) db.receipts) ≡ some x
      → plan_receipt p ports db s v role d ≡ ok r
      → (x ≡ r)
        × ((x.session_id != s.session_id) ≡ false)
        × ((x.action_hash != s.action_hash) ≡ false)
        × ((x.agent_id != d.agent_id) ≡ false)
        × ((x.run_assignment_id != d.run_assignment_id) ≡ false)
        × ((x.role != role) ≡ false)
        × ((x.source != role) ≡ false)
        × (ltb v.validated_head x.observed_at_seq ≡ false)
  unfolding plan_receipt
  receipt_facts v role d x r e h = ground arith

  pub plan_receipt-IsReceiptOf :
      (v : ValidationRecord) (role : Role) (d : DependencyCertificate) (r : ObservationReceipt)
      → plan_receipt p ports db s v role d ≡ ok r
      → IsReceiptOf v role d r
  unfolding plan_receipt
  plan_receipt-IsReceiptOf v role d r h =
      elim (Option-cases (single (filter (λ c. c.receipt_id == d.receipt_id) db.receipts))) [
        | inl e ↦ absurd (ground arith)
        | inr (x, e) ↦
            let (same, session, action, agent, assignment, of_role, source, ahead) =
              receipt_facts v role d x r e h in
            rw (← same) (record {
              only = single-eq _ x e;
              session = eq_of_bne x.session_id s.session_id session;
              action = eq_of_bne x.action_hash s.action_hash action;
              agent = eq_of_bne x.agent_id d.agent_id agent;
              assignment = eq_of_bne x.run_assignment_id d.run_assignment_id assignment;
              received_role = eq_of_bne x.role role of_role;
              source = eq_of_bne x.source role source;
              observed = ltb→ge v.validated_head x.observed_at_seq ahead;
            })
      ]

  -- The version that the world answers with for a Receipt: what it observed, valid then.
  pub record IsVersionOf (r : ObservationReceipt) (w : ResourceVersion) : Type 0 where
    pub resolved : ports.resolve_resource_version db r ≡ ok (some w)
    pub revision : w.source_revision ≡ r.source_revision
    pub observed_hash : w.value_hash ≡ r.value_hash
    pub hash : w.value_hash ≡ value_digest p w.value
    pub begun : w.valid_from_seq ≤ r.observed_at_seq

  pub plan_version-IsVersionOf :
      (role : Role) (r : ObservationReceipt) (w : ResourceVersion)
      → plan_version p ports db role r ≡ ok w
      → IsVersionOf r w
  unfolding plan_version
  plan_version-IsVersionOf role r w h = elim (Result-cases (ports.resolve_resource_version db r)) [
    | inr (_, e) ↦ absurd (ground arith)
    | inl (none, e) ↦ absurd (ground arith)
    | inl (some x, e) ↦
        let same : x ≡ w = ground arith in
        rw (← same) (record {
          resolved = e;
          revision = eq_of_bne x.source_revision r.source_revision (ground arith);
          observed_hash = eq_of_bne x.value_hash r.value_hash (ground arith);
          hash = eq_of_bne x.value_hash (value_digest p x.value) (ground arith);
          begun = ltb→ge r.observed_at_seq x.valid_from_seq (ground arith);
        })
  ]
