-- ===== src/Decision/Binding.antt =====
-- The bindings behind a Decision: `resolveBoundDecision` and its assertions in
-- apps/server/src/epochguard/decision-parser.ts.
use epochguard.Prelude.{
  String, Bool, ◌&&◌, ◌||◌, some, List, ◌==◌, ◌!=◌, string_eq, option_eq, Eq, is_null, filter,
  single, Result, ok, ◌>>=◌, ◌>>◌, throw_if, require,
}
use epochguard.Platform.{Platform}
use epochguard.Contract.Json.{canonical_json}
use epochguard.Contract.States.{Role, role_eq}
use epochguard.Contract.RecordStates.{
  FailureCode, attempt_state_eq, assignment_state_eq, decision_state_eq, AttemptState,
  AssignmentState, DecisionState,
}
use epochguard.Contract.Action.{
  action_hash, idempotency_scope, query_role, query_json, build_role_query_spec,
}
use epochguard.Contract.Records.{
  RunAssignment, AgentAttempt, ObservationReceipt, DependencyCertificate, EpochSession,
}
use epochguard.Contract.Database.{EpochDatabase}

-- A DecisionNormalizationError with its reason, or a Zod error of the contract's own functions.
pub data BindingError : Type 0 where
  failed : FailureCode → BindingError
  malformed : BindingError

abbrev pub Checked : Type 0 → Type 0
Checked A = Result BindingError A

-- requireUnique
unfoldable pub require_unique : {A : Type 0} → List A → (A → Bool) → Checked A
require_unique xs p = require (single (filter p xs)) (failed FailureCode.decision_invalid)

-- assertEqual, with its reason
abbrev pub assert_equal : {A : Type 0} ⦃e : Eq A⦄ → A → A → FailureCode → Checked (Unit {0})
assert_equal actual expected reason = throw_if (actual != expected) (failed reason)

-- frozenAgentId, and expectedAgentForRole of effect-gate.ts
abbrev pub frozen_agent_id : EpochSession → Role → String
frozen_agent_id s Role.inventory = s.frozen_assignments.inventory_agent_id
frozen_agent_id s Role.budget = s.frozen_assignments.budget_agent_id
frozen_agent_id s Role.policy = s.frozen_assignments.policy_agent_id

module _ (p : Platform) where
  unfoldable pub assert_canonical_action : EpochSession → Checked (Unit {0})
  assert_canonical_action s = do
    hash ← action_hash p malformed s.action
    assert_equal s.action.session_id s.session_id FailureCode.binding_mismatch
    assert_equal s.action.action_hash hash FailureCode.action_hash_mismatch
    assert_equal s.action_hash hash FailureCode.action_hash_mismatch
    assert_equal s.action.idempotency_key (idempotency_scope s.session_id hash)
        FailureCode.action_hash_mismatch

  unfoldable pub assert_role_query_binding :
      EpochDatabase → EpochSession → RunAssignment → ObservationReceipt → Checked (Unit {0})
  assert_role_query_binding db s a r = do
    expected ← build_role_query_spec p malformed s.action a.role
    assert_equal a.query_hash expected.query_hash FailureCode.query_hash_mismatch
    assert_equal r.query_hash expected.query_hash FailureCode.query_hash_mismatch
    assert_equal r.source (query_role expected) FailureCode.binding_mismatch
    assert_equal r.entity_key expected.entity_key FailureCode.binding_mismatch
    stored ←
        require_unique db.role_query_specs
          (λ q. q.action_hash == expected.action_hash && query_role q == query_role expected)
    throw_if (canonical_json p (query_json stored) != canonical_json p (query_json expected))
        (failed FailureCode.query_hash_mismatch)

unfoldable pub assert_registration_binding :
    EpochDatabase → EpochSession → RunAssignment → Checked (Unit {0})
assert_registration_binding db s a = do
  registration ← require_unique db.role_agent_registrations (λ r. r.role == a.role)
  assert_equal registration.agent_id a.agent_id FailureCode.binding_mismatch
  assert_equal registration.agent_id (frozen_agent_id s a.role) FailureCode.binding_mismatch
  assert_equal registration.role_profile_version a.role_profile_version
      FailureCode.role_profile_mismatch
  assert_equal registration.agents_md_digest a.agents_md_digest FailureCode.role_profile_mismatch

unfoldable pub assert_attempt_binding :
    EpochSession → AgentAttempt → RunAssignment → Checked (Unit {0})
assert_attempt_binding s t a = do
  assert_equal t.assignment_id a.assignment_id FailureCode.binding_mismatch
  assert_equal t.session_id s.session_id FailureCode.binding_mismatch
  assert_equal t.action_hash s.action_hash FailureCode.binding_mismatch
  assert_equal t.agent_id a.agent_id FailureCode.binding_mismatch
  assert_equal t.role a.role FailureCode.binding_mismatch
  assert_equal a.session_id s.session_id FailureCode.binding_mismatch
  assert_equal a.action_hash s.action_hash FailureCode.binding_mismatch
  assert_equal a.agent_id (frozen_agent_id s a.role) FailureCode.binding_mismatch
  assert_equal a.bound_run_id t.run_id FailureCode.binding_mismatch
  throw_if (is_null t.run_id || is_null a.bound_run_id) (failed FailureCode.decision_invalid)

unfoldable pub assert_receipt_binding : RunAssignment → ObservationReceipt → Checked (Unit {0})
assert_receipt_binding a r = do
  assert_equal r.receipt_id a.receipt_id FailureCode.binding_mismatch
  assert_equal r.run_assignment_id a.assignment_id FailureCode.binding_mismatch
  assert_equal r.session_id a.session_id FailureCode.binding_mismatch
  assert_equal r.action_hash a.action_hash FailureCode.binding_mismatch
  assert_equal r.agent_id a.agent_id FailureCode.binding_mismatch
  assert_equal r.role a.role FailureCode.binding_mismatch
  assert_equal r.source a.role FailureCode.binding_mismatch

-- BoundDecision
pub record BoundDecision : Type 0 where
  pub decision : DependencyCertificate
  pub assignment : RunAssignment
  pub attempt : AgentAttempt
  pub receipt : ObservationReceipt

module _ (p : Platform) where
  -- The schema of a Decision gives it one Receipt, so that test cannot fail here.
  unfoldable pub resolve_bound_decision :
      EpochDatabase → EpochSession → DependencyCertificate → Checked BoundDecision
  resolve_bound_decision db s d = do
    assert_canonical_action p s
    assert_equal d.session_id s.session_id FailureCode.binding_mismatch
    assert_equal d.action_hash s.action_hash FailureCode.action_hash_mismatch
    throw_if (d.status != DecisionState.active) (failed FailureCode.decision_invalid)
    a ← require_unique db.run_assignments (λ c. c.assignment_id == d.run_assignment_id)
    t ← require_unique db.attempts (λ c. c.assignment_id == a.assignment_id)
    r ← require_unique db.receipts (λ c. c.receipt_id == d.receipt_id)
    throw_if
        (a.status != AssignmentState.consumed
          || a.consumed_by_decision_certificate_id != some d.certificate_id
          || is_null a.consumed_at)
        (failed FailureCode.decision_invalid)
    throw_if (t.status != AttemptState.accepted || is_null t.run_id || is_null t.output_digest)
        (failed FailureCode.decision_invalid)
    assert_attempt_binding s t a
    assert_receipt_binding a r
    assert_registration_binding db s a
    assert_role_query_binding p db s a r
    assert_equal d.agent_id a.agent_id FailureCode.binding_mismatch
    assert_equal d.role a.role FailureCode.binding_mismatch
    assert_equal (some d.run_id) a.bound_run_id FailureCode.binding_mismatch
    assert_equal d.receipt_id a.receipt_id FailureCode.binding_mismatch
    ok (record { decision = d; assignment = a; attempt = t; receipt = r })
