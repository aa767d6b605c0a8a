-- ===== src/Receipt.antt =====
-- The receipt issuer, apps/server/src/epochguard/receipt-issuer.ts. The proofs are in the modules
-- below.
pub mod Lasting
pub mod Once
pub mod Issued
pub mod Lookup
use epochguard.Prelude.{
  ℕ, String, Bool, true, false, not, ◌&&◌, ◌||◌, Option, none, some, List, [], ◌∷◌, ◌++◌, ◌==◌,
  ◌!=◌, string_eq, nat_eq, is_null, leb, ltb, filter, any, every, single, Result, ok, err, ◌>>=◌,
  ◌>>◌, throw_if, require,
}
use epochguard.Platform.{Platform}
use epochguard.Contract.States.{Role, role_eq}
use epochguard.Contract.RecordStates.{AssignmentState, assignment_state_eq}
use epochguard.Contract.Values.{JsonValue, JsonFields}
use epochguard.Contract.Json.{canonical_json}
use epochguard.Contract.Action.{
  ActionIntent, RoleQuerySpec, action_schema, query_schema, query_role, query_json, role_name,
  build_role_query_spec,
}
use epochguard.Contract.Records.{RunAssignment, ResourceVersion, ObservationReceipt}
use epochguard.Contract.Database.{EpochDatabase}
use epochguard.Contract.Schemas.{assignment_schema, receipt_schema}
use epochguard.World.{WorldError, resolve_by_identity, resolve_version_at, resource_id_for}

-- What the issuer throws, one constructor to a message; `malformed` is a Zod error and `world` an
-- error of the ledger.
pub data ReceiptError : Type 0 where
  malformed : ReceiptError
  world : WorldError → ReceiptError
  ahead_of_head revision_missing value_mismatch predates_version outside_interval : ReceiptError
  horizon_ahead : ReceiptError
  assignment_used action_unbound query_unbound query_mismatch : ReceiptError
  assignment_not_stored assignment_differs query_not_stored query_differs : ReceiptError
  already_issued no_version_at_head nonce_reused : ReceiptError

abbrev pub Issuing : Type 0 → Type 0
Issuing A = Result ReceiptError A

abbrev pub lift_world : {A : Type 0} → Result WorldError A → Issuing A
lift_world (ok a) = ok a
lift_world (err e) = err (world e)

-- IssueObservationInput
pub record IssueInput : Type 0 where
  pub action : ActionIntent
  pub assignment : RunAssignment
  pub query : RoleQuerySpec

-- What the options' factories return: `now()` and `nonceFactory()`.
pub record IssuePorts : Type 0 where
  pub now : String
  pub nonce : String

-- IssuedObservation
pub record IssuedObservation : Type 0 where
  pub receipt : ObservationReceipt
  pub resource_version : ResourceVersion

abbrev pub is_past : ℕ → Option ℕ → Bool
is_past seq none = false
is_past seq (some until) = leb until seq

abbrev pub is_before : ℕ → Option ℕ → Bool
is_before head none = false
is_before head (some until) = ltb head until

module _ (p : Platform) where
  -- The checks of resolveReceiptResourceVersion on the version that it found.
  unfoldable pub check_interval :
      EpochDatabase → ObservationReceipt → ResourceVersion → Issuing ResourceVersion
  check_interval db r v = do
    throw_if (v.value_hash != r.value_hash) value_mismatch
    throw_if (ltb r.observed_at_seq v.valid_from_seq) predates_version
    throw_if (is_past r.observed_at_seq v.valid_until_seq) outside_interval
    throw_if (is_before db.head_seq v.valid_until_seq) horizon_ahead
    ok v

  -- resolveReceiptResourceVersion
  unfoldable pub resolve_receipt_version :
      EpochDatabase → ObservationReceipt → Issuing ResourceVersion
  resolve_receipt_version db r = do
    throw_if (not (receipt_schema p r)) malformed
    throw_if (ltb db.head_seq r.observed_at_seq) ahead_of_head
    found ← lift_world (resolve_by_identity p db r.source r.entity_key r.source_revision)
    v ← require found revision_missing
    check_interval db r v

abbrev pub nullable_text : Option String → JsonValue
nullable_text none = JsonValue.null
nullable_text (some t) = JsonValue.text t

abbrev pub assignment_state_name : AssignmentState → String
assignment_state_name AssignmentState.created = "CREATED"
assignment_state_name AssignmentState.bound = "BOUND"
assignment_state_name AssignmentState.consumed = "CONSUMED"
assignment_state_name AssignmentState.rejected = "REJECTED"

-- A RunAssignment as the object that canonicalJson receives.
abbrev pub assignment_json : RunAssignment → JsonValue
assignment_json a =
    let f = JsonFields.field in
    JsonValue.object (
      f "assignmentId" (JsonValue.text a.assignment_id) (
        f "sessionId" (JsonValue.text a.session_id) (
          f "actionHash" (JsonValue.text a.action_hash) (
            f "agentId" (JsonValue.text a.agent_id) (
              f "agentNameAtAssignment" (JsonValue.text a.agent_name_at_assignment) (
                f "role" (JsonValue.text (role_name a.role)) (
                  f "receiptId" (JsonValue.text a.receipt_id) (
                    f "queryHash" (JsonValue.text a.query_hash) (
                      f "roleProfileVersion" (JsonValue.text a.role_profile_version) (
                        f "promptTemplateVersion" (JsonValue.text a.prompt_template_version) (
                          f "agentsMdDigest" (JsonValue.text a.agents_md_digest) (
                            f "runtimeLabelAtDispatch" (JsonValue.text a.runtime_label_at_dispatch)
                              (f "evidencePackRelativePath"
                                (JsonValue.text a.evidence_pack_relative_path)
                                (f "evidencePackHash" (JsonValue.text a.evidence_pack_hash) (
                                  f "boundRunId" (nullable_text a.bound_run_id) (
                                    f "status" (JsonValue.text (assignment_state_name a.status)) (
                                      f "consumedByDecisionCertificateId"
                                        (nullable_text a.consumed_by_decision_certificate_id)
                                        (f "createdAt" (JsonValue.text a.created_at) (
                                          f "boundAt" (nullable_text a.bound_at) (
                                            f "consumedAt" (nullable_text a.consumed_at)
                                              JsonFields.end))))))))))))))))))))

module _ (p : Platform) where
  -- Two values have one canonical text: the test of assertCanonicalEqual.
  abbrev pub same_json : JsonValue → JsonValue → Bool
  same_json a b = canonical_json p a == canonical_json p b

  -- The Assignment is unused and bound to the Action and to the query.
  unfoldable pub check_assignment : IssueInput → Issuing (Unit {0})
  check_assignment input = do
    throw_if
        (input.assignment.status != AssignmentState.created
          || not (is_null input.assignment.bound_run_id)
          || not (is_null input.assignment.consumed_by_decision_certificate_id))
        assignment_used
    throw_if
        (input.assignment.session_id != input.action.session_id
          || input.assignment.action_hash != input.action.action_hash)
        action_unbound
    throw_if
        (input.assignment.role != query_role input.query
          || input.assignment.query_hash != input.query.query_hash)
        query_unbound
    expected ← build_role_query_spec p malformed input.action input.assignment.role
    throw_if (not (same_json (query_json input.query) (query_json expected))) query_mismatch

  -- The Assignment and the query are the stored ones, and no Receipt was issued for the Assignment.
  unfoldable pub check_stored : EpochDatabase → IssueInput → Issuing (Unit {0})
  check_stored db input = do
    stored ←
        require
          (single
            (filter (λ c. c.assignment_id == input.assignment.assignment_id) db.run_assignments))
          assignment_not_stored
    throw_if (not (same_json (assignment_json stored) (assignment_json input.assignment)))
        assignment_differs
    let queries = filter (λ c. c.query_hash == input.query.query_hash) db.role_query_specs
    throw_if (elim queries [ [] ↦ true | _ ↦ false ]) query_not_stored
    throw_if (not (every (λ c. same_json (query_json c) (query_json input.query)) queries))
        query_differs
    throw_if
        (any
          (λ c.
            c.receipt_id == input.assignment.receipt_id
            || c.run_assignment_id == input.assignment.assignment_id)
          db.receipts)
        already_issued

  -- The object that ObservationReceiptSchema.parse receives.
  abbrev pub new_receipt :
      IssuePorts → EpochDatabase → IssueInput → ResourceVersion → ObservationReceipt
  new_receipt ports db input v = record {
    receipt_id = input.assignment.receipt_id;
    session_id = input.assignment.session_id;
    action_hash = input.assignment.action_hash;
    agent_id = input.assignment.agent_id;
    run_assignment_id = input.assignment.assignment_id;
    role = input.assignment.role;
    source = query_role input.query;
    entity_key = input.query.entity_key;
    query_hash = input.query.query_hash;
    source_revision = v.source_revision;
    value_hash = v.value_hash;
    observed_at_seq = db.head_seq;
    nonce = ports.nonce;
    issued_at = ports.now;
    integrity_tag = none;
  }

  -- The observation at the head, and the Receipt for it.
  unfoldable pub observe : IssuePorts → EpochDatabase → IssueInput → Issuing IssuedObservation
  observe ports db input = do
    resource ← lift_world (resource_id_for p (query_role input.query) input.query.entity_key)
    found ← lift_world (resolve_version_at p db resource db.head_seq)
    v ← require found no_version_at_head
    throw_if (any (λ c. c.nonce == ports.nonce) db.receipts) nonce_reused
    let receipt = new_receipt ports db input v
    throw_if (not (receipt_schema p receipt)) malformed
    _ ← resolve_receipt_version p db receipt
    let issued : IssuedObservation = record { receipt = receipt; resource_version = v }
    ok issued

  -- ReceiptIssuer.issue
  unfoldable pub issue :
      IssuePorts → EpochDatabase → IssueInput → Issuing (IssuedObservation × EpochDatabase)
  issue ports db input = do
    throw_if (not (action_schema p input.action)) malformed
    throw_if (not (assignment_schema p input.assignment)) malformed
    throw_if (not (query_schema input.query)) malformed
    check_assignment input
    check_stored db input
    issued ← observe ports db input
    ok (issued, record db { receipts = db.receipts ++ issued.receipt ∷ [] })
