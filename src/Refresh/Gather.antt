-- ===== src/Refresh/Gather.antt =====
-- The evidence that `buildRefreshPlan` of apps/server/src/epochguard/refresh-planner.ts gathers: the
-- Session, its Validation, and the Receipt and the version behind each role's Decision.
use epochguard.Prelude.{
  ℕ, String, Bool, false, not, ◌&&◌, ◌||◌, Option, none, some, List, [], ◌∷◌, map, leb, ltb, ◌==◌,
  ◌!=◌, string_eq, nat_eq, option_eq, str_lt, is_null, filter, distinct, sort, length, single,
  Result, ok, err, ◌>>=◌, ◌>>◌, throw_if, require,
}
use epochguard.Platform.{Platform}
use epochguard.Contract.States.{Role, SessionState, role_eq, session_state_eq}
use epochguard.Contract.RecordStates.{
  DecisionState, ValidationOutcome, decision_state_eq, outcome_eq,
}
use epochguard.Contract.Json.{value_digest, receipt_set_hash}
use epochguard.Contract.Records.{
  ResourceVersion, ObservationReceipt, DependencyCertificate, EpochSession,
}
use epochguard.Contract.Database.{DecisionIds, decision_id_list, ValidationRecord, EpochDatabase}
use epochguard.Contract.Schemas.{version_schema, receipt_schema, decision_schema}
use epochguard.Contract.EvidenceSchemas.{validation_schema}
use epochguard.Validator.{active_ids, effective_end}
use epochguard.Validator.Outcome.{list_max, list_min, first}
use epochguard.Gate.Base.{no_active_attempt}
use epochguard.Refresh.{
  RefreshEvidenceInterval, RefreshPorts, Invariant, Planned, invariant, malformed, port_failed,
  same_ordered_ids,
}
use epochguard.Refresh.Owners.{role_for_agent}

-- `if (test) return failInvariant(message)`
abbrev pub fail_if : Bool → Invariant → Planned (Unit {0})
fail_if test message = throw_if test (invariant message)

-- A member of `evidenceIntervals`
pub record PlanEvidence : Type 0 where
  pub receipt_id : String
  pub interval : RefreshEvidenceInterval

-- `interval.until` of a member of `effectiveIntervals`
abbrev pub effective_until : ℕ → PlanEvidence → ℕ
effective_until head e = effective_end head e.interval.until

unfoldable pub latest_start : List PlanEvidence → ℕ
latest_start es = list_max (map (λ e. e.interval.from) es)

unfoldable pub earliest_end : ℕ → List PlanEvidence → ℕ
earliest_end head es = list_min (map (effective_until head) es)

-- latestStartingReceiptId and earliestEndingReceiptId
unfoldable pub latest_starting_id : List PlanEvidence → Option String
latest_starting_id es =
    first
      (sort str_lt (map (λ e. e.receipt_id) (filter (λ e. e.interval.from == latest_start es) es)))

unfoldable pub earliest_ending_id : ℕ → List PlanEvidence → Option String
earliest_ending_id head es = first (
    sort str_lt
      (map (λ e. e.receipt_id) (filter (λ e. effective_until head e == earliest_end head es) es)))

-- The half-open interval of a version ends at or before `seq`.
abbrev pub ended_by : ℕ → Option ℕ → Bool
ended_by seq none = false
ended_by seq (some until) = leb until seq

abbrev pub receipt_ids : List PlanEvidence → List String
receipt_ids es = map (λ e. e.receipt_id) es

module _ (p : Platform) (ports : RefreshPorts) (db : EpochDatabase) where
  -- `dependencySetHash`
  abbrev pub evidence_hash : List PlanEvidence → String
  evidence_hash es = receipt_set_hash p (receipt_ids es)

  -- The Session may be planned for, and is bound to no other plan.
  unfoldable pub check_session : EpochSession → Planned (Unit {0})
  check_session s = do
    fail_if (s.state == SessionState.historical_stale) Invariant.historical_stale
    fail_if (s.state != SessionState.blocked_no_cut) Invariant.not_blocked
    fail_if
        (is_null s.active_validation_id
          || not (is_null s.active_permit_id)
          || not (no_active_attempt s))
        Invariant.not_idle

  -- The Validation found the conflict at the head, for the Session's Decisions.
  unfoldable pub check_validation : EpochSession → String → ValidationRecord → Planned DecisionIds
  check_validation s plan_id v = do
    throw_if (not (validation_schema p v)) malformed
    fail_if
        (v.outcome != ValidationOutcome.no_valid_observed_world_cut
          || is_null v.no_cut_proof_id
          || not (is_null v.joint_validity_certificate_id)
          || v.validated_head != db.head_seq)
        Invariant.not_current
    fail_if (v.session_id != s.session_id || v.action_hash != s.action_hash)
        Invariant.validation_bindings
    fail_if (not (is_null v.refresh_plan_id) && v.refresh_plan_id != some plan_id)
        Invariant.other_plan
    fail_if (not (is_null s.active_refresh_plan_id) && s.active_refresh_plan_id != some plan_id)
        Invariant.session_bound
    ids ←
        require (active_ids s.active_decision_certificate_ids)
          (invariant Invariant.decisions_required)
    fail_if
        (not
          (same_ordered_ids (decision_id_list ids) (decision_id_list v.decision_certificate_ids)))
        Invariant.decision_tuple
    ok ids

  unfoldable pub plan_decision : EpochSession → Role → String → Planned DependencyCertificate
  plan_decision s role id = do
    d ←
        require (single (filter (λ c. c.certificate_id == id) db.decisions))
          (invariant (Invariant.decision_unique role))
    throw_if (not (decision_schema p d)) malformed
    fail_if
        (d.status != DecisionState.active
          || not (is_null d.superseded_by_certificate_id)
          || d.session_id != s.session_id
          || d.action_hash != s.action_hash
          || d.role != role)
        (Invariant.decision_binding role)
    owner ← role_for_agent s d.agent_id
    fail_if (owner != role) (Invariant.decision_binding role)
    ok d

  unfoldable pub plan_receipt :
      EpochSession → ValidationRecord → Role → DependencyCertificate → Planned ObservationReceipt
  plan_receipt s v role d = do
    r ←
        require (single (filter (λ c. c.receipt_id == d.receipt_id) db.receipts))
          (invariant (Invariant.receipt_unique role))
    throw_if (not (receipt_schema p r)) malformed
    fail_if
        (r.session_id != s.session_id
          || r.action_hash != s.action_hash
          || r.agent_id != d.agent_id
          || r.run_assignment_id != d.run_assignment_id
          || r.role != role
          || r.source != role
          || ltb v.validated_head r.observed_at_seq)
        (Invariant.receipt_binding role)
    ok r

  abbrev pub resolved_by :
      Result (Unit {0}) (Option ResourceVersion) → Planned (Option ResourceVersion)
  resolved_by (ok v) = ok v
  resolved_by (err _) = err port_failed

  unfoldable pub plan_version : Role → ObservationReceipt → Planned ResourceVersion
  plan_version role r = do
    found ← resolved_by (ports.resolve_resource_version db r)
    w ← require found (invariant (Invariant.history_unresolved role))
    fail_if (not (version_schema p w)) (Invariant.history_unresolved role)
    fail_if
        (w.source_revision != r.source_revision
          || w.value_hash != r.value_hash
          || w.value_hash != value_digest p w.value
          || ltb r.observed_at_seq w.valid_from_seq
          || ended_by r.observed_at_seq w.valid_until_seq)
        (Invariant.history_invalid role)
    ok w

  -- One round of the loop over ROLES.
  unfoldable pub role_evidence :
      EpochSession → ValidationRecord → Role → String → Planned PlanEvidence
  role_evidence s v role id = do
    d ← plan_decision s role id
    r ← plan_receipt s v role d
    w ← plan_version role r
    let i : RefreshEvidenceInterval = record {
      role = role;
      agent_id = d.agent_id;
      from = w.valid_from_seq;
      until = w.valid_until_seq;
    }
    let e : PlanEvidence = record { receipt_id = d.receipt_id; interval = i }
    ok e

  -- The loop over ROLES.
  unfoldable pub plan_evidence :
      EpochSession → ValidationRecord → DecisionIds → Planned (List PlanEvidence)
  plan_evidence s v ids = do
    i ← role_evidence s v Role.inventory ids.inventory
    b ← role_evidence s v Role.budget ids.budget
    q ← role_evidence s v Role.policy ids.policy
    let es = i ∷ b ∷ q ∷ []
    fail_if (length (distinct (receipt_ids es)) != 3) Invariant.receipts_distinct
    fail_if (evidence_hash es != v.dependency_set_hash) Invariant.dependency_set
    ok es
