-- ===== src/Gate/Evidence.antt =====
-- The evidence of one role in apps/server/src/epochguard/effect-gate.ts. The loop of
-- commitProtectedEffect and that of validateCommittedEvidenceClosure look up the same records with
-- the same tests, and differ in the head and in how intervals are compared.
use epochguard.Prelude.{
  ℕ, String, Bool, false, not, ◌&&◌, ◌||◌, none, some, leb, ltb, ◌==◌, ◌!=◌, string_eq, nat_eq,
  option_eq, is_null, filter, any, ok, ◌>>=◌, ◌>>◌, require,
}
use epochguard.Platform.{Platform}
use epochguard.Contract.Json.{value_digest}
use epochguard.Contract.States.{Role, Verdict, role_eq, verdict_eq}
use epochguard.Contract.RecordStates.{
  FailureCode, AttemptState, AssignmentState, DecisionState, attempt_state_eq, assignment_state_eq,
  decision_state_eq,
}
use epochguard.Contract.Action.{RoleQuerySpec, build_role_query_spec, canonical_query, query_schema}
use epochguard.Contract.Records.{
  RunAssignment, AgentAttempt, ResourceVersion, ObservationReceipt, DependencyCertificate,
  EpochSession,
}
use epochguard.Contract.Database.{CertificateInterval, JointValidityCertificate, EpochDatabase}
use epochguard.Contract.Schemas.{
  version_schema, assignment_schema, attempt_schema, receipt_schema, decision_schema,
}
use epochguard.Decision.Binding.{frozen_agent_id}
use epochguard.Verdict.{authoritative_verdict}
use epochguard.Gate.Base.{
  GatePorts, Gated, malformed, rejection, reject_if, require_single, FrozenRegistrations,
  registered_profile,
}

-- What one round of the loop pushes.
pub record RoleEvidence : Type 0 where
  pub receipt_id : String
  pub attempt_id : String
  pub run_id : String
  pub from : ℕ
  pub until : ℕ

-- A version is not valid at a sequence.
abbrev pub is_outside : ResourceVersion → ℕ → Bool
is_outside v seq =
    ltb seq v.valid_from_seq || elim v.valid_until_seq [ none ↦ false | some u ↦ leb u seq ]

module _ (p : Platform) (db : EpochDatabase) (s : EpochSession) (hash : String) (n : ℕ)
    (role : Role) where
  unfoldable pub role_decision : String → Gated DependencyCertificate
  role_decision id = do
    d ←
        require_single (filter (λ c. c.certificate_id == id) db.decisions)
          FailureCode.decision_invalid n
    reject_if (not (decision_schema p d)) FailureCode.decision_invalid n
    reject_if
        (d.status != DecisionState.active
          || not (is_null d.superseded_by_certificate_id)
          || d.session_id != s.session_id
          || d.action_hash != hash
          || d.role != role
          || d.agent_id != frozen_agent_id s role
          || d.verdict != Verdict.allow)
        FailureCode.decision_invalid n
    ok d

  unfoldable pub role_assignment : FrozenRegistrations → DependencyCertificate → Gated RunAssignment
  unfolding registered_profile
  role_assignment f d = do
    a ←
        require_single (filter (λ c. c.assignment_id == d.run_assignment_id) db.run_assignments)
          FailureCode.decision_invalid n
    reject_if (not (assignment_schema p a)) FailureCode.decision_invalid n
    reject_if
        (a.status != AssignmentState.consumed
          || a.bound_run_id != some d.run_id
          || a.consumed_by_decision_certificate_id != some d.certificate_id
          || is_null a.bound_at
          || is_null a.consumed_at
          || a.session_id != s.session_id
          || a.action_hash != hash
          || a.agent_id != frozen_agent_id s role
          || a.role != role
          || a.receipt_id != d.receipt_id)
        FailureCode.decision_invalid n
    registered_profile f role (frozen_agent_id s role) a n
    ok a

  unfoldable pub role_attempt : DependencyCertificate → RunAssignment → Gated AgentAttempt
  role_attempt d a = do
    t ←
        require_single (filter (λ c. c.assignment_id == a.assignment_id) db.attempts)
          FailureCode.decision_invalid n
    reject_if (not (attempt_schema p t)) FailureCode.decision_invalid n
    reject_if
        (t.status != AttemptState.accepted
          || t.session_id != s.session_id
          || t.action_hash != hash
          || t.role != role
          || t.agent_id != frozen_agent_id s role
          || t.run_id != some d.run_id
          || is_null t.output_digest)
        FailureCode.decision_invalid n
    ok t

  -- A stored query has the expected hash and canonical form.
  abbrev pub is_persisted_query : RoleQuerySpec → RoleQuerySpec → Bool
  is_persisted_query expected q =
      query_schema q
      && q.query_hash == expected.query_hash
      && canonical_query p q == canonical_query p expected

  unfoldable pub role_receipt : DependencyCertificate → RunAssignment → Gated ObservationReceipt
  role_receipt d a = do
    r ←
        require_single (filter (λ c. c.receipt_id == d.receipt_id) db.receipts)
          FailureCode.decision_invalid n
    reject_if (not (receipt_schema p r)) FailureCode.decision_invalid n
    expected ← build_role_query_spec p malformed s.action role
    reject_if
        (not (any (is_persisted_query expected) db.role_query_specs)
          || a.query_hash != expected.query_hash
          || r.query_hash != expected.query_hash
          || r.session_id != s.session_id
          || r.action_hash != hash
          || r.agent_id != frozen_agent_id s role
          || r.run_assignment_id != a.assignment_id
          || r.role != role
          || r.source != role
          || r.entity_key != expected.entity_key)
        FailureCode.decision_invalid n
    ok r

  -- The authoritative version at a head, and its verdict. The loop over a committed Effect has
  -- rejected a Receipt that is ahead of its head before.
  unfoldable pub role_version : GatePorts → ℕ → ObservationReceipt → Gated ResourceVersion
  role_version ports head r = do
    v ← require (ports.resolve_resource_version db r) (rejection FailureCode.history_unverifiable n)
    reject_if (not (version_schema p v)) FailureCode.history_unverifiable n
    reject_if
        (v.source_revision != r.source_revision
          || v.value_hash != r.value_hash
          || v.value_hash != value_digest p v.value
          || is_outside v r.observed_at_seq
          || ltb head r.observed_at_seq
          || is_outside v head)
        FailureCode.history_unverifiable n
    verdict ←
        require (authoritative_verdict role s.action v.value)
          (rejection FailureCode.history_unverifiable n)
    reject_if (verdict != Verdict.allow) FailureCode.decision_invalid n
    ok v

  abbrev pub role_interval :
      JointValidityCertificate → ObservationReceipt → Gated CertificateInterval
  role_interval jvc r =
      require_single (filter (λ i. i.receipt_id == r.receipt_id) jvc.intervals)
        FailureCode.binding_mismatch n
