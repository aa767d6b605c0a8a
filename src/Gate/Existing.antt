-- ===== src/Gate/Existing.antt =====
-- The retry path of apps/server/src/epochguard/effect-gate.ts: `validateCommittedEvidenceClosure`
-- and `returnExistingEffect`.
use epochguard.Prelude.{
  ℕ, String, Bool, false, not, ◌&&◌, ◌||◌, Option, none, some, List, [], ◌∷◌, map, leb, ltb, ◌==◌,
  ◌!=◌, string_eq, nat_eq, option_eq, is_null, filter, any, distinct, length, ok, err, ◌>>=◌, ◌>>◌,
}
use epochguard.Platform.{Platform}
use epochguard.Contract.Json.{receipt_set_hash}
use epochguard.Contract.States.{Role, SessionState, role_eq, session_state_eq}
use epochguard.Contract.RecordStates.{
  FailureCode, PermitState, ValidationOutcome, permit_state_eq, outcome_eq,
}
use epochguard.Contract.Records.{ResourceVersion, EpochSession}
use epochguard.Contract.Database.{
  DecisionIds, CertificateInterval, JointValidityCertificate, ValidationRecord, EffectPermit,
  EffectRecord, EpochDatabase,
}
use epochguard.Contract.EvidenceSchemas.{
  effect_schema, permit_schema, certificate_schema, validation_schema,
}
use epochguard.Validator.{effective_end}
use epochguard.Validator.Outcome.{list_max, list_min}
use epochguard.Gate.Base.{
  GatePorts, Gated, CommitResult, committed, rejection, reject_if, require_single,
  ordered_active_ids, no_active_attempt, is_live_plan_of, is_effect_of, FrozenRegistrations,
  frozen_registrations,
}
use epochguard.Gate.Evidence.{
  RoleEvidence, role_decision, role_assignment, role_attempt, role_receipt, role_version,
  role_interval,
}
use epochguard.Gate.Plans.{completed_plan_closure}

-- sameOrderedIds of two tuples
abbrev pub same_ids : DecisionIds → DecisionIds → Bool
same_ids a b = a.inventory == b.inventory && a.budget == b.budget && a.policy == b.policy

abbrev pub evidence_lower : List RoleEvidence → ℕ
evidence_lower es = list_max (map (λ e. e.from) es)

abbrev pub evidence_upper : List RoleEvidence → ℕ
evidence_upper es = list_min (map (λ e. e.until) es)

-- The distinct receipts, attempts or runs of the three roles are three.
abbrev pub are_three : List String → Bool
are_three ids = length (distinct ids) == 3

-- The last test of both loops: the bounds recorded are those of the intervals, and the head lies
-- between them.
unfoldable pub bounds_mismatch : ValidationRecord → List RoleEvidence → ℕ → Bool
unfolding list_max list_min
bounds_mismatch v es head =
    v.lower_bound != some (evidence_lower es)
    || v.upper_bound != some (evidence_upper es)
    || leb (evidence_upper es) (evidence_lower es)
    || ltb head (evidence_lower es)
    || leb (evidence_upper es) head

-- An interval that was open at the commit may have been closed since.
abbrev pub closed_after : ℕ → CertificateInterval → ResourceVersion → Bool
closed_after head i v =
    is_null i.until && elim v.valid_until_seq [ none ↦ false | some u ↦ ltb head u ]

abbrev pub ends_by : ℕ → Option ℕ → Bool
ends_by head none = false
ends_by head (some u) = leb u head

module _ (p : Platform) (ports : GatePorts) (db : EpochDatabase) (s : EpochSession) (hash : String)
    (n : ℕ) where
  -- One round of the loop of validateCommittedEvidenceClosure.
  unfoldable pub committed_role :
      JointValidityCertificate → ℕ → FrozenRegistrations → Role → String → Gated RoleEvidence
  committed_role jvc head f role id = do
    d ← role_decision p db s hash n role id
    a ← role_assignment p db s hash n role f d
    t ← role_attempt p db s hash n role d a
    r ← role_receipt p db s hash n role d a
    reject_if (ltb head r.observed_at_seq) FailureCode.decision_invalid n
    v ← role_version p db s hash n role ports head r
    i ← role_interval p db s hash n role jvc r
    reject_if
        (i.source != r.source
          || i.source_revision != r.source_revision
          || i.from != v.valid_from_seq
          || (i.until != v.valid_until_seq && not (closed_after head i v))
          || ltb head i.from
          || ends_by head i.until)
        FailureCode.binding_mismatch n
    let found : RoleEvidence = record {
      receipt_id = r.receipt_id;
      attempt_id = t.attempt_id;
      run_id = d.run_id;
      from = i.from;
      until = effective_end head i.until;
    }
    ok found

  -- validateCommittedEvidenceClosure
  unfoldable pub committed_evidence_closure :
      JointValidityCertificate → ValidationRecord → String → ℕ → Gated (Unit {0})
  unfolding committed_role ordered_active_ids frozen_registrations receipt_set_hash bounds_mismatch
  committed_evidence_closure jvc validation dependency_hash head = do
    ids ← ordered_active_ids s n
    f ← frozen_registrations p db s n
    i ← committed_role jvc head f Role.inventory ids.inventory
    b ← committed_role jvc head f Role.budget ids.budget
    q ← committed_role jvc head f Role.policy ids.policy
    let es = i ∷ b ∷ q ∷ []
    reject_if
        (not (are_three (map (λ e. e.receipt_id) es))
          || not (are_three (map (λ e. e.attempt_id) es))
          || not (are_three (map (λ e. e.run_id) es)))
        FailureCode.decision_invalid n
    reject_if
        (receipt_set_hash p (map (λ e. e.receipt_id) es) != dependency_hash
          || bounds_mismatch validation es head)
        FailureCode.binding_mismatch n

  -- The Permit, the certificate and the Validation behind an Effect.
  unfoldable pub effect_permit : EffectRecord → Gated EffectPermit
  effect_permit e = do
    m ←
        require_single (filter (λ c. c.permit_id == e.permit_id) db.permits)
          FailureCode.binding_mismatch n
    reject_if (not (permit_schema p m)) FailureCode.binding_mismatch n
    reject_if
        (m.status != PermitState.consumed
          || is_null m.consumed_at
          || m.consumed_at != some e.created_at
          || m.session_id != e.session_id
          || m.action_hash != e.action_hash
          || m.idempotency_key != e.idempotency_key
          || m.dependency_set_hash != e.dependency_set_hash
          || m.joint_validity_certificate_id != e.joint_validity_certificate_id
          || ltb db.head_seq m.validated_head)
        FailureCode.binding_mismatch n
    ok m

  unfoldable pub effect_certificate : EffectRecord → EffectPermit → Gated JointValidityCertificate
  effect_certificate e m = do
    c ←
        require_single
          (filter (λ c. c.certificate_id == e.joint_validity_certificate_id)
            db.joint_validity_certificates)
          FailureCode.binding_mismatch n
    reject_if (not (certificate_schema p c)) FailureCode.binding_mismatch n
    reject_if
        (c.session_id != e.session_id
          || c.action_hash != e.action_hash
          || c.dependency_set_hash != e.dependency_set_hash
          || c.validated_at_head != m.validated_head
          || c.selected_cut_seq != m.validated_head
          || not c.current_head_covered)
        FailureCode.binding_mismatch n
    ok c

  unfoldable pub effect_validation :
      EffectRecord → EffectPermit → JointValidityCertificate → Gated ValidationRecord
  unfolding ordered_active_ids
  effect_validation e m c = do
    v ←
        require_single (filter (λ v. v.validation_id == c.validation_id) db.validations)
          FailureCode.binding_mismatch n
    reject_if (not (validation_schema p v)) FailureCode.binding_mismatch n
    ids ← ordered_active_ids s n
    reject_if
        (s.active_validation_id != some v.validation_id
          || v.session_id != e.session_id
          || v.action_hash != e.action_hash
          || v.dependency_set_hash != e.dependency_set_hash
          || v.validated_head != m.validated_head
          || v.outcome != ValidationOutcome.valid_current_allow
          || v.joint_validity_certificate_id != some c.certificate_id
          || not (is_null v.no_cut_proof_id)
          || not (same_ids v.decision_certificate_ids ids)
          || not (same_ids c.decision_certificate_ids ids))
        FailureCode.binding_mismatch n
    ok v

module _ (p : Platform) (ports : GatePorts) (db : EpochDatabase) (s : EpochSession) (hash : String)
    (key : String) where
  -- The only Effect of a Session is returned when its whole evidence still closes.
  unfoldable pub confirm_effect : EffectRecord → Gated CommitResult
  unfolding committed_evidence_closure effect_permit effect_certificate effect_validation
  confirm_effect e = do
    reject_if (not (effect_schema p e)) FailureCode.binding_mismatch 1
    reject_if (e.session_id != s.session_id || e.action_hash != hash || e.idempotency_key != key)
        FailureCode.action_hash_mismatch 1
    reject_if
        (s.state != SessionState.committed
          || s.active_permit_id != some e.permit_id
          || not (no_active_attempt s)
          || any (is_live_plan_of s.session_id) db.refresh_plans)
        FailureCode.binding_mismatch 1
    m ← effect_permit p ports db s hash 1 e
    c ← effect_certificate p ports db s hash 1 e m
    v ← effect_validation p ports db s hash 1 e m c
    committed_evidence_closure p ports db s hash 1 c v e.dependency_set_hash m.validated_head
    completed_plan_closure p db s hash 1 v
    ok (committed false e)

  abbrev pub existing_effect_of : List EffectRecord → Gated (Option CommitResult)
  existing_effect_of [] = ok none
  existing_effect_of (e ∷ []) = do found ← confirm_effect e; ok (some found)
  existing_effect_of es = err (rejection FailureCode.binding_mismatch (length es))

  -- returnExistingEffect
  unfoldable pub existing_effect : Gated (Option CommitResult)
  unfolding confirm_effect
  existing_effect = existing_effect_of (filter (is_effect_of s.session_id) db.effects)
