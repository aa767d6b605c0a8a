-- ===== src/Gate/Release.antt =====
-- The Permit and the evidence of a commit: the middle of `commitProtectedEffect` in
-- apps/server/src/epochguard/effect-gate.ts.
use epochguard.Prelude.{
  String, Bool, not, ◌||◌, some, List, [], ◌∷◌, map, ◌==◌, ◌!=◌, string_eq, nat_eq, option_eq,
  is_null, filter, ok, ◌>>=◌, ◌>>◌, require,
}
use epochguard.Platform.{Platform}
use epochguard.Contract.Json.{receipt_set_hash}
use epochguard.Contract.States.{Role, role_eq, session_state_eq}
use epochguard.Contract.RecordStates.{
  FailureCode, PermitState, ValidationOutcome, permit_state_eq, outcome_eq,
}
use epochguard.Contract.Records.{EpochSession}
use epochguard.Contract.Database.{
  DecisionIds, JointValidityCertificate, ValidationRecord, EffectPermit, EpochDatabase,
}
use epochguard.Contract.EvidenceSchemas.{permit_schema, certificate_schema, validation_schema}
use epochguard.Validator.{effective_end}
use epochguard.Gate.Base.{
  GatePorts, Gated, rejection, reject_if, require_single, ordered_active_ids, FrozenRegistrations,
  frozen_registrations,
}
use epochguard.Gate.Evidence.{
  RoleEvidence, role_decision, role_assignment, role_attempt, role_receipt, role_version,
  role_interval,
}
use epochguard.Gate.Plans.{completed_plan_closure}
use epochguard.Gate.Existing.{same_ids, are_three, bounds_mismatch}

-- The records of a commit and what it computes from them.
pub record Release : Type 0 where
  pub permit : EffectPermit
  pub certificate : JointValidityCertificate
  pub validation : ValidationRecord
  pub evidence : List RoleEvidence
  pub dependency_hash : String

module _ (p : Platform) (ports : GatePorts) (db : EpochDatabase) (s : EpochSession)
    (hash : String) where
  -- One round of the loop of commitProtectedEffect.
  unfoldable pub current_role :
      JointValidityCertificate → FrozenRegistrations → Role → String → Gated RoleEvidence
  current_role jvc f role id = do
    d ← role_decision p db s hash 0 role id
    a ← role_assignment p db s hash 0 role f d
    t ← role_attempt p db s hash 0 role d a
    r ← role_receipt p db s hash 0 role d a
    v ← role_version p db s hash 0 role ports db.head_seq r
    i ← role_interval p db s hash 0 role jvc r
    reject_if
        (i.source != r.source
          || i.source_revision != r.source_revision
          || i.from != v.valid_from_seq
          || i.until != v.valid_until_seq)
        FailureCode.binding_mismatch 0
    let found : RoleEvidence = record {
      receipt_id = r.receipt_id;
      attempt_id = t.attempt_id;
      run_id = d.run_id;
      from = v.valid_from_seq;
      until = effective_end db.head_seq v.valid_until_seq;
    }
    ok found

  unfoldable pub permit_guard : String → EffectPermit → Gated EffectPermit
  permit_guard key m = do
    reject_if (not (permit_schema p m)) FailureCode.binding_mismatch 0
    reject_if
        (m.status != PermitState.issued
          || not (is_null m.consumed_at)
          || m.session_id != s.session_id
          || m.action_hash != hash
          || m.idempotency_key != key)
        FailureCode.binding_mismatch 0
    ok m

  unfoldable pub active_permit : String → Gated EffectPermit
  unfolding permit_guard
  active_permit key = do
    id ← require s.active_permit_id (rejection FailureCode.binding_mismatch 0)
    m ← require_single (filter (λ c. c.permit_id == id) db.permits) FailureCode.binding_mismatch 0
    permit_guard key m

  unfoldable pub permit_certificate : EffectPermit → Gated JointValidityCertificate
  permit_certificate m = do
    c ←
        require_single
          (filter (λ c. c.certificate_id == m.joint_validity_certificate_id)
            db.joint_validity_certificates)
          FailureCode.binding_mismatch 0
    reject_if (not (certificate_schema p c)) FailureCode.binding_mismatch 0
    ok c

  unfoldable pub active_validation : JointValidityCertificate → Gated ValidationRecord
  active_validation c = do
    v ←
        require_single (filter (λ v. v.validation_id == c.validation_id) db.validations)
          FailureCode.binding_mismatch 0
    reject_if (not (validation_schema p v)) FailureCode.binding_mismatch 0
    ok v

  -- Permit, certificate, Validation, head and active Decisions agree.
  unfoldable pub binding_mismatch :
      EffectPermit → JointValidityCertificate → ValidationRecord → DecisionIds → Bool
  binding_mismatch m c v ids =
      s.active_validation_id != some v.validation_id
      || v.session_id != s.session_id
      || v.action_hash != hash
      || v.outcome != ValidationOutcome.valid_current_allow
      || v.validated_head != db.head_seq
      || v.joint_validity_certificate_id != some c.certificate_id
      || not (is_null v.no_cut_proof_id)
      || not (same_ids v.decision_certificate_ids ids)
      || c.session_id != s.session_id
      || c.action_hash != hash
      || c.validated_at_head != db.head_seq
      || c.selected_cut_seq != db.head_seq
      || not c.current_head_covered
      || not (same_ids c.decision_certificate_ids ids)
      || m.joint_validity_certificate_id != c.certificate_id
      || m.validated_head != c.validated_at_head
      || m.dependency_set_hash != c.dependency_set_hash
      || v.dependency_set_hash != c.dependency_set_hash

  -- The loop over ROLES.
  unfoldable pub current_evidence :
      JointValidityCertificate → DecisionIds → Gated (List RoleEvidence)
  unfolding current_role frozen_registrations
  current_evidence jvc ids = do
    f ← frozen_registrations p db s 0
    i ← current_role jvc f Role.inventory ids.inventory
    b ← current_role jvc f Role.budget ids.budget
    q ← current_role jvc f Role.policy ids.policy
    ok (i ∷ b ∷ q ∷ [])

  -- From the Permit's certificate to the completed RefreshPlan.
  unfoldable pub release_of : EffectPermit → Gated Release
  unfolding current_evidence permit_certificate active_validation binding_mismatch
      ordered_active_ids receipt_set_hash bounds_mismatch
  release_of m = do
    c ← permit_certificate m
    v ← active_validation c
    ids ← ordered_active_ids s 0
    reject_if (binding_mismatch m c v ids) FailureCode.binding_mismatch 0
    es ← current_evidence c ids
    reject_if (not (are_three (map (λ e. e.receipt_id) es))) FailureCode.binding_mismatch 0
    reject_if
        (not (are_three (map (λ e. e.attempt_id) es)) || not (are_three (map (λ e. e.run_id) es)))
        FailureCode.decision_invalid 0
    let dependency_hash = receipt_set_hash p (map (λ e. e.receipt_id) es)
    reject_if
        (dependency_hash != v.dependency_set_hash
          || dependency_hash != c.dependency_set_hash
          || dependency_hash != m.dependency_set_hash
          || bounds_mismatch v es db.head_seq)
        FailureCode.binding_mismatch 0
    completed_plan_closure p db s hash 0 v
    let found : Release = record {
      permit = m;
      certificate = c;
      validation = v;
      evidence = es;
      dependency_hash = dependency_hash;
    }
    ok found
