-- ===== src/Contract/EvidenceSchemas.antt =====
-- The schemas of the evidence records and of the whole database in
-- apps/server/src/epochguard/types.ts.
use epochguard.Prelude.{ℕ, Bool, leb, ◌==◌, string_eq, ◌&&◌, every, length, nat_beq}
use epochguard.Platform.{Platform}
use epochguard.Contract.Identifiers.{
  is_opaque_id, is_sha256_digest, is_short_text, is_safe, nullable, between,
}
use epochguard.Contract.Json.{sha256_digest}
use epochguard.Contract.Action.{query_schema}
use epochguard.Contract.Schemas.{
  registration_schema, commit_schema, version_schema, assignment_schema, attempt_schema,
  receipt_schema, decision_schema, session_schema,
}
use epochguard.Contract.Database.{
  DecisionIds, ValidationRecord, CertificateInterval, JointValidityCertificate, EffectPermit,
  NoCutProof, EffectRecord, RefreshPlan, RejectedContent, RejectedOutputArtifact, EpochDatabase,
  parse_rejected, output_too_large,
}

abbrev pub decision_ids_schema : DecisionIds → Bool
decision_ids_schema t = is_opaque_id t.inventory && is_opaque_id t.budget && is_opaque_id t.policy

module _ (p : Platform) where
  -- ValidationRecordSchema
  unfoldable pub validation_schema : ValidationRecord → Bool
  validation_schema v =
      is_opaque_id v.validation_id
      && is_opaque_id v.session_id
      && is_sha256_digest v.action_hash
      && is_safe v.base_session_revision
      && decision_ids_schema v.decision_certificate_ids
      && is_sha256_digest v.dependency_set_hash
      && is_safe v.validated_head
      && nullable is_safe v.lower_bound
      && nullable is_safe v.upper_bound
      && nullable is_opaque_id v.joint_validity_certificate_id
      && nullable is_opaque_id v.no_cut_proof_id
      && nullable is_opaque_id v.refresh_plan_id
      && p.is_datetime v.created_at

  -- IntervalSchema
  abbrev pub interval_schema : CertificateInterval → Bool
  interval_schema i =
      is_opaque_id i.receipt_id
      && is_safe i.source_revision
      && is_safe i.from
      && nullable is_safe i.until

  -- JointValidityCertificateSchema
  unfoldable pub certificate_schema : JointValidityCertificate → Bool
  certificate_schema c =
      is_opaque_id c.certificate_id
      && is_opaque_id c.validation_id
      && is_opaque_id c.session_id
      && is_sha256_digest c.action_hash
      && is_sha256_digest c.dependency_set_hash
      && is_safe c.validated_at_head
      && is_safe c.selected_cut_seq
      && decision_ids_schema c.decision_certificate_ids
      && every interval_schema c.intervals
      && nat_beq (length c.intervals) 3
      && p.is_datetime c.created_at

  -- EffectPermitSchema
  unfoldable pub permit_schema : EffectPermit → Bool
  permit_schema e =
      is_opaque_id e.permit_id
      && is_opaque_id e.session_id
      && is_sha256_digest e.action_hash
      && is_sha256_digest e.dependency_set_hash
      && is_opaque_id e.joint_validity_certificate_id
      && is_safe e.validated_head
      && is_short_text 768 e.idempotency_key
      && p.is_datetime e.issued_at
      && nullable p.is_datetime e.consumed_at

  -- NoCutProofSchema
  unfoldable pub no_cut_schema : NoCutProof → Bool
  no_cut_schema n =
      is_opaque_id n.proof_id
      && is_opaque_id n.validation_id
      && is_opaque_id n.session_id
      && is_sha256_digest n.action_hash
      && is_sha256_digest n.dependency_set_hash
      && decision_ids_schema n.decision_certificate_ids
      && is_safe n.validated_at_head
      && is_safe n.lower_bound
      && is_safe n.upper_bound
      && is_opaque_id n.latest_starting_receipt_id
      && is_opaque_id n.earliest_ending_receipt_id
      && is_opaque_id n.conflict_witness_receipt_ids.0
      && is_opaque_id n.conflict_witness_receipt_ids.1
      && every is_opaque_id n.refresh_agent_ids
      && between 1 3 (length n.refresh_agent_ids)
      && p.is_datetime n.created_at

  -- EffectRecordSchema
  unfoldable pub effect_schema : EffectRecord → Bool
  effect_schema e =
      is_opaque_id e.effect_id
      && is_short_text 768 e.idempotency_key
      && is_opaque_id e.permit_id
      && is_opaque_id e.session_id
      && is_sha256_digest e.action_hash
      && is_sha256_digest e.dependency_set_hash
      && is_opaque_id e.joint_validity_certificate_id
      && p.is_datetime e.created_at

  -- RefreshPlanSchema
  unfoldable pub plan_schema : RefreshPlan → Bool
  plan_schema r =
      is_opaque_id r.refresh_plan_id
      && is_opaque_id r.session_id
      && is_safe r.base_session_revision
      && is_safe r.validated_head
      && is_sha256_digest r.dependency_set_hash
      && every is_opaque_id r.active_decision_certificate_ids
      && nat_beq (length r.active_decision_certificate_ids) 3
      && every is_opaque_id r.agent_ids
      && between 1 3 (length r.agent_ids)
      && nullable is_opaque_id r.claimed_attempt_id

  -- The two members of RejectedOutputArtifactSchema, with the bound of 16 KiB between them.
  abbrev pub content_schema : ℕ → RejectedContent → Bool
  content_schema n (parse_rejected text hash) =
      leb n 16384 && is_sha256_digest hash && sha256_digest p text == hash
  content_schema n output_too_large = leb 16385 n && is_safe n

  -- RejectedOutputArtifactSchema
  unfoldable pub artifact_schema : RejectedOutputArtifact → Bool
  artifact_schema a =
      is_opaque_id a.artifact_id
      && is_opaque_id a.session_id
      && is_opaque_id a.attempt_id
      && is_sha256_digest a.original_digest
      && content_schema a.original_byte_length a.content
      && p.is_datetime a.created_at

  -- EpochDatabaseSchema, without the two collections that are not modelled
  unfoldable pub database_schema : EpochDatabase → Bool
  database_schema d =
      is_safe d.snapshot_revision
      && is_safe d.head_seq
      && every (registration_schema p) d.role_agent_registrations
      && every (commit_schema p) d.world_commits
      && every (version_schema p) d.resource_versions
      && every query_schema d.role_query_specs
      && every (assignment_schema p) d.run_assignments
      && every (receipt_schema p) d.receipts
      && every (session_schema p) d.sessions
      && every (attempt_schema p) d.attempts
      && every (decision_schema p) d.decisions
      && every validation_schema d.validations
      && every certificate_schema d.joint_validity_certificates
      && every no_cut_schema d.no_cut_proofs
      && every plan_schema d.refresh_plans
      && every permit_schema d.permits
      && every effect_schema d.effects
      && every artifact_schema d.rejected_output_artifacts
