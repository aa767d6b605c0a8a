-- ===== src/Refresh/Plan.antt =====
-- `buildRefreshPlan` of apps/server/src/epochguard/refresh-planner.ts.
use epochguard.Prelude.{
  String, Bool, not, ◌||◌, none, some, List, [], ◌∷◌, map, ltb, ◌==◌, ◌!=◌, string_eq, nat_eq,
  option_eq, filter, includes, distinct, length, single, ok, ◌>>=◌, ◌>>◌, throw_if, require,
}
use epochguard.Platform.{Platform}
use epochguard.Contract.States.{role_eq, session_state_eq}
use epochguard.Contract.RecordStates.{RefreshPlanState, decision_state_eq, outcome_eq}
use epochguard.Contract.Records.{EpochSession}
use epochguard.Contract.Database.{
  DecisionIds, decision_id_list, ValidationRecord, NoCutProof, RefreshPlan, EpochDatabase,
}
use epochguard.Contract.EvidenceSchemas.{no_cut_schema, plan_schema}
use epochguard.Refresh.{RefreshPorts, Invariant, Planned, invariant, malformed, same_ordered_ids}
use epochguard.Refresh.Owners.{refresh_set, require_budget_owner}
use epochguard.Refresh.Gather.{
  fail_if, PlanEvidence, latest_start, earliest_end, latest_starting_id, earliest_ending_id,
  receipt_ids, evidence_hash, check_session, check_validation, plan_evidence,
}

module _ (p : Platform) (ports : RefreshPorts) (db : EpochDatabase) where
  abbrev pub witnesses : NoCutProof → List String
  witnesses n = n.conflict_witness_receipt_ids.0 ∷ n.conflict_witness_receipt_ids.1 ∷ []

  -- The large test of the NoCutProof; the two tests of the receipt set come after the identifiers
  -- are known to be the computed ones.
  unfoldable pub proof_open :
      EpochSession → ValidationRecord → DecisionIds → List PlanEvidence → NoCutProof → Bool
  proof_open s v ids es n =
      let head = v.validated_head in
      let lower = latest_start es in
      let upper = earliest_end head es in
      let latest = latest_starting_id es in
      let earliest = earliest_ending_id head es in
      n.validation_id != v.validation_id
      || n.session_id != s.session_id
      || n.action_hash != s.action_hash
      || n.dependency_set_hash != evidence_hash p ports db es
      || n.validated_at_head != head
      || n.lower_bound != lower
      || n.upper_bound != upper
      || v.lower_bound != some lower
      || v.upper_bound != some upper
      || ltb lower upper
      || not (same_ordered_ids (decision_id_list n.decision_certificate_ids) (decision_id_list ids))
      || some n.latest_starting_receipt_id != latest
      || some n.earliest_ending_receipt_id != earliest
      || n.latest_starting_receipt_id == n.earliest_ending_receipt_id
      || not (includes (receipt_ids es) n.latest_starting_receipt_id)
      || not (includes (receipt_ids es) n.earliest_ending_receipt_id)
      || length (distinct (witnesses n)) != 2
      || not (includes (witnesses n) n.earliest_ending_receipt_id)
      || not (includes (witnesses n) n.latest_starting_receipt_id)

  unfoldable pub plan_proof :
      EpochSession → ValidationRecord → DecisionIds → List PlanEvidence → Planned NoCutProof
  plan_proof s v ids es = do
    n ←
        require (single (filter (λ c. some c.proof_id == v.no_cut_proof_id) db.no_cut_proofs))
          (invariant Invariant.proof_unique)
    throw_if (not (no_cut_schema p n)) malformed
    fail_if (proof_open s v ids es n) Invariant.proof_closure
    ok n

  -- The agents to ask again: by the proof and by the intervals the same, the Budget agent alone.
  unfoldable pub plan_owners :
      EpochSession → ValidationRecord → List PlanEvidence → NoCutProof → Planned (List String)
  plan_owners s v es n = do
    _ ← require_budget_owner s n.refresh_agent_ids
    agents ← refresh_set v.validated_head (map (λ e. e.interval) es)
    _ ← require_budget_owner s agents
    fail_if (not (same_ordered_ids n.refresh_agent_ids agents)) Invariant.owners_differ
    ok agents

  abbrev pub new_plan :
      String
      → EpochSession
      → ValidationRecord
      → DecisionIds
      → List PlanEvidence
      → List String
      → RefreshPlan
  new_plan plan_id s v ids es agents = record {
    refresh_plan_id = plan_id;
    session_id = s.session_id;
    base_session_revision = s.session_revision;
    validated_head = v.validated_head;
    dependency_set_hash = evidence_hash p ports db es;
    active_decision_certificate_ids = decision_id_list ids;
    agent_ids = agents;
    status = RefreshPlanState.available;
    claimed_attempt_id = none;
  }

  -- buildRefreshPlan
  unfoldable pub build_refresh_plan : String → String → Planned RefreshPlan
  build_refresh_plan plan_id session_id = do
    s ←
        require (single (filter (λ c. c.session_id == session_id) db.sessions))
          (invariant Invariant.session_unique)
    check_session p ports db s
    v ←
        require
          (single (filter (λ c. some c.validation_id == s.active_validation_id) db.validations))
          (invariant Invariant.validation_unique)
    ids ← check_validation p ports db s plan_id v
    es ← plan_evidence p ports db s v ids
    n ← plan_proof s v ids es
    agents ← plan_owners s v es n
    throw_if (not (plan_schema p (new_plan plan_id s v ids es agents))) malformed
    ok (new_plan plan_id s v ids es agents)
