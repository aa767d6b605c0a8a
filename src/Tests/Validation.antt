-- ===== src/Tests/Validation.antt =====
-- Runs of the joint-validity validator.
use epochguard.Prelude.{◌≤◌, ◌≡◌, refl, some, none, [], ◌∷◌, map, ok, string_eq, All, length}
use epochguard.Contract.RecordStates.{ValidationOutcome}
use epochguard.Contract.Database.{NoCutProof}
use epochguard.Validator.{
  ValidationOptions, ValidationResult, ResourceVersionLookup, ResolvedInterval,
}
use epochguard.Validator.Outcome.{
  validate_joint_validity, lower_bound, upper_bound, current_invalid_agents, certificate_interval,
}
use epochguard.Validator.Cuts.{IsCut}
use epochguard.Validator.Active.{IsActiveTuple}
use epochguard.Validator.Evidence.{IsResolved}
use epochguard.Validator.Soundness.{Grounds, OutcomeMeans}
use epochguard.Validator.Guarantees.{
  IsWitness, validate_outcome, validate_evidence, validate-IsWitness, validate_certificate,
}
use epochguard.Tests.Fixtures.{
  toy, time, digest, database, History, steady, torn, version, validation, certificate, ids,
}

abbrev options : History → ValidationOptions
options h = record {
  resolve_resource_version = λ l. some (record {
    source = l.source;
    entity_key = l.entity_key;
    resource_version = version h l.source;
  });
  validation_id = "val1";
  joint_validity_certificate_id = "jvc1";
  no_cut_proof_id = "proof1";
  created_at = time;
  verification_latency_ms = 0;
}

abbrev steady_result : ValidationResult
steady_result = record {
  validation_record = record validation { base_session_revision = 3 };
  joint_validity_certificate = some certificate;
  no_cut_proof = none;
  current_invalid_agent_ids = [];
}

abbrev proof_found : NoCutProof
proof_found = record {
  proof_id = "proof1";
  validation_id = "val1";
  session_id = "s1";
  action_hash = digest;
  dependency_set_hash = digest;
  decision_certificate_ids = ids;
  validated_at_head = 2;
  lower_bound = 2;
  upper_bound = 1;
  latest_starting_receipt_id = "rc-budget";
  earliest_ending_receipt_id = "rc-inventory";
  conflict_witness_receipt_ids = ("rc-inventory", "rc-budget");
  refresh_agent_ids = "agent-inventory" ∷ [];
  created_at = time;
}

abbrev torn_result : ValidationResult
torn_result = record {
  validation_record = record validation {
    base_session_revision = 3;
    validated_head = 2;
    outcome = ValidationOutcome.no_valid_observed_world_cut;
    lower_bound = some 2;
    upper_bound = some 1;
    joint_validity_certificate_id = none;
    no_cut_proof_id = some "proof1";
  };
  joint_validity_certificate = none;
  no_cut_proof = some proof_found;
  current_invalid_agent_ids = "agent-inventory" ∷ [];
}

steady_run : validate_joint_validity toy (database steady) "s1" (options steady) ≡ ok steady_result
unfolding validate_joint_validity epochguard.Validator.active_decision_tuple
    epochguard.Validator.resolve_intervals epochguard.Validator.resolve_interval
    epochguard.Decision.Binding.resolve_bound_decision
    epochguard.Decision.Binding.assert_canonical_action epochguard.Contract.Action.action_hash
    epochguard.Contract.Action.action_fields_schema epochguard.Decision.Binding.require_unique
    epochguard.Decision.Binding.assert_attempt_binding
    epochguard.Decision.Binding.assert_receipt_binding
    epochguard.Decision.Binding.assert_registration_binding
    epochguard.Decision.Binding.assert_role_query_binding
    epochguard.Contract.Action.build_role_query_spec epochguard.Validator.check_version
    epochguard.Contract.Schemas.version_schema epochguard.Verdict.authoritative_verdict
    epochguard.Validator.Outcome.classify epochguard.Contract.EvidenceSchemas.certificate_schema
    epochguard.Contract.EvidenceSchemas.no_cut_schema
    epochguard.Contract.EvidenceSchemas.validation_schema current_invalid_agents
    epochguard.Validator.Outcome.current_result epochguard.Validator.Outcome.earliest_ending
    epochguard.Validator.Outcome.historical_result epochguard.Validator.Outcome.latest_starting
    lower_bound epochguard.Validator.Outcome.no_cut_result upper_bound
    epochguard.Validator.active_decision epochguard.Contract.Json.receipt_set_hash
steady_run = refl

torn_run : validate_joint_validity toy (database torn) "s1" (options torn) ≡ ok torn_result
unfolding validate_joint_validity epochguard.Validator.active_decision_tuple
    epochguard.Validator.resolve_intervals epochguard.Validator.resolve_interval
    epochguard.Decision.Binding.resolve_bound_decision
    epochguard.Decision.Binding.assert_canonical_action epochguard.Contract.Action.action_hash
    epochguard.Contract.Action.action_fields_schema epochguard.Decision.Binding.require_unique
    epochguard.Decision.Binding.assert_attempt_binding
    epochguard.Decision.Binding.assert_receipt_binding
    epochguard.Decision.Binding.assert_registration_binding
    epochguard.Decision.Binding.assert_role_query_binding
    epochguard.Contract.Action.build_role_query_spec epochguard.Validator.check_version
    epochguard.Contract.Schemas.version_schema epochguard.Verdict.authoritative_verdict
    epochguard.Validator.Outcome.classify epochguard.Contract.EvidenceSchemas.certificate_schema
    epochguard.Contract.EvidenceSchemas.no_cut_schema
    epochguard.Contract.EvidenceSchemas.validation_schema current_invalid_agents
    epochguard.Validator.Outcome.current_result epochguard.Validator.Outcome.earliest_ending
    epochguard.Validator.Outcome.historical_result epochguard.Validator.Outcome.latest_starting
    lower_bound epochguard.Validator.Outcome.no_cut_result upper_bound
    epochguard.Validator.active_decision epochguard.Contract.Json.receipt_set_hash
torn_run = refl

validate_outcome_example :
    (g : Grounds toy (database torn) "s1" (options torn)) × OutcomeMeans 2 g.intervals
      ValidationOutcome.no_valid_observed_world_cut
validate_outcome_example = validate_outcome toy (database torn) "s1" (options torn) torn_run

validate_evidence_example :
    (g : Grounds toy (database steady) "s1" (options steady)) × IsActiveTuple
      (database steady)
      "s1"
      g.session
      g.ids
      g.decisions
    × All (IsResolved toy (database steady) g.session 1 (options steady)) g.intervals
    × (map (λ i. i.decision) g.intervals ≡ g.decisions)
validate_evidence_example = validate_evidence toy (database steady) "s1" (options steady) steady_run

validate-IsWitness_example :
    (g : Grounds toy (database torn) "s1" (options torn)) × (earliest : ResolvedInterval)
    × (latest : ResolvedInterval) × IsWitness g.intervals earliest latest
    × (proof_found.conflict_witness_receipt_ids
        ≡ (earliest.receipt.receipt_id, latest.receipt.receipt_id))
    × (proof_found.lower_bound ≡ lower_bound g.intervals)
    × (proof_found.upper_bound ≡ upper_bound g.intervals)
    × (proof_found.refresh_agent_ids ≡ current_invalid_agents 2 g.intervals)
    × (1 ≤ length proof_found.refresh_agent_ids)
validate-IsWitness_example =
    validate-IsWitness toy (database torn) "s1" (options torn) torn_run proof_found refl

validate_certificate_example :
    (certificate.selected_cut_seq ≡ 1)
    × (g : Grounds toy (database steady) "s1" (options steady)) × (certificate.intervals
        ≡ map certificate_interval g.intervals)
    × IsCut g.intervals 1
validate_certificate_example =
    validate_certificate toy (database steady) "s1" (options steady) steady_run certificate refl
