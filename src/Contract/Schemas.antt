-- ===== src/Contract/Schemas.antt =====
-- The object schemas of apps/server/src/epochguard/types.ts: what `safeParse` checks of a record
-- beyond the types of its fields.
use epochguard.Prelude.{
  String, Bool, true, not, ◌&&◌, ◌||◌, Option, some, leb, ltb, every, length, is_null,
}
use epochguard.Platform.{Platform}
use epochguard.Contract.RecordStates.{AttemptState}
use epochguard.Contract.Identifiers.{
  is_opaque_id, is_sha256_digest, is_short_text, is_safe, nullable,
}
use epochguard.Contract.Paths.{is_evidence_pack_path}
use epochguard.Contract.Action.{action_schema}
use epochguard.Contract.Records.{
  RoleAgentRegistration, WorldChange, WorldCommit, ResourceVersion, RunAssignment, RunUsage,
  AgentAttempt, ObservationReceipt, DependencyCertificate, RoleIds, FrozenAssignments, EpochSession,
}

module _ (p : Platform) where
  -- RoleAgentRegistrationSchema
  unfoldable pub registration_schema : RoleAgentRegistration → Bool
  registration_schema r =
      is_opaque_id r.agent_id
      && is_short_text 80 r.agent_name_at_registration
      && is_opaque_id r.role_profile_version
      && is_sha256_digest r.agents_md_digest
      && p.is_datetime r.registered_at

  pub change_schema : WorldChange → Bool
  change_schema c =
      is_opaque_id c.resource_id
      && nullable is_opaque_id c.previous_version_id
      && is_opaque_id c.next_version_id

  -- WorldCommitSchema
  unfoldable pub commit_schema : WorldCommit → Bool
  unfolding change_schema
  commit_schema c =
      is_safe c.seq
      && every change_schema c.changes
      && leb 1 (length c.changes)
      && is_short_text 1000 c.reason
      && p.is_datetime c.created_at

  -- The superRefine of ResourceVersionSchema
  abbrev pub interval_ordered : ResourceVersion → Bool
  interval_ordered v = nullable (λ u. ltb v.valid_from_seq u) v.valid_until_seq

  -- ResourceVersionSchema
  unfoldable pub version_schema : ResourceVersion → Bool
  version_schema v =
      is_opaque_id v.id
      && is_opaque_id v.resource_id
      && is_safe v.source_revision
      && is_sha256_digest v.value_hash
      && is_safe v.valid_from_seq
      && nullable is_safe v.valid_until_seq
      && interval_ordered v

  -- RunAssignmentSchema
  unfoldable pub assignment_schema : RunAssignment → Bool
  assignment_schema a =
      is_opaque_id a.assignment_id
      && is_opaque_id a.session_id
      && is_sha256_digest a.action_hash
      && is_opaque_id a.agent_id
      && is_short_text 80 a.agent_name_at_assignment
      && is_opaque_id a.receipt_id
      && is_sha256_digest a.query_hash
      && is_opaque_id a.role_profile_version
      && is_opaque_id a.prompt_template_version
      && is_sha256_digest a.agents_md_digest
      && is_short_text 256 a.runtime_label_at_dispatch
      && is_evidence_pack_path a.evidence_pack_relative_path
      && is_sha256_digest a.evidence_pack_hash
      && nullable is_opaque_id a.bound_run_id
      && nullable is_opaque_id a.consumed_by_decision_certificate_id
      && p.is_datetime a.created_at
      && nullable p.is_datetime a.bound_at
      && nullable p.is_datetime a.consumed_at

  abbrev pub run_times_ordered : Option String → Option String → Bool
  run_times_ordered (some started) (some completed) = p.date_le started completed
  run_times_ordered _ _ = true

  abbrev pub timeline_fits : AttemptState → Bool → Bool → Bool → Bool
  timeline_fits AttemptState.assignment_created run started completed =
      not run && not started && not completed
  timeline_fits AttemptState.dispatching run started completed =
      not run && not started && not completed
  timeline_fits AttemptState.queued run started completed = run && not started && not completed
  timeline_fits AttemptState.running run started completed = run && started && not completed
  timeline_fits AttemptState.completed run started completed = run && started && completed
  timeline_fits AttemptState.output_rejected run started completed = run && started && completed
  timeline_fits AttemptState.accepted run started completed = run && started && completed
  timeline_fits _ run started completed =
      (not run && not started && not completed)
      || (run && not started && completed)
      || (run && started && completed)

  -- attemptTimelineIsValid
  unfoldable pub timeline_valid : AgentAttempt → Bool
  timeline_valid a =
      run_times_ordered a.run_started_at a.run_completed_at
      && timeline_fits a.status (not (is_null a.run_id)) (not (is_null a.run_started_at))
          (not (is_null a.run_completed_at))

  abbrev pub usage_schema : RunUsage → Bool
  usage_schema u =
      nullable is_safe u.input_tokens
      && nullable is_safe u.cached_input_tokens
      && nullable is_safe u.output_tokens

  -- AgentAttemptSchema
  unfoldable pub attempt_schema : AgentAttempt → Bool
  unfolding timeline_valid
  attempt_schema a =
      is_opaque_id a.attempt_id
      && is_opaque_id a.session_id
      && is_sha256_digest a.action_hash
      && is_opaque_id a.agent_id
      && is_opaque_id a.assignment_id
      && nullable is_opaque_id a.run_id
      && nullable p.is_datetime a.run_started_at
      && nullable p.is_datetime a.run_completed_at
      && nullable (is_short_text 512) a.thread_id
      && nullable usage_schema a.usage
      && nullable is_sha256_digest a.output_digest
      && timeline_valid a

  -- z.string().min(32).max(512)
  abbrev pub is_nonce : String → Bool
  is_nonce s = is_short_text 512 s && not (is_short_text 31 s)

  -- ObservationReceiptSchema
  unfoldable pub receipt_schema : ObservationReceipt → Bool
  receipt_schema r =
      is_opaque_id r.receipt_id
      && is_opaque_id r.session_id
      && is_sha256_digest r.action_hash
      && is_opaque_id r.agent_id
      && is_opaque_id r.run_assignment_id
      && is_opaque_id r.entity_key
      && is_sha256_digest r.query_hash
      && is_safe r.source_revision
      && is_sha256_digest r.value_hash
      && is_safe r.observed_at_seq
      && is_nonce r.nonce
      && p.is_datetime r.issued_at
      && nullable (is_short_text 512) r.integrity_tag

  -- DependencyCertificateSchema
  unfoldable pub decision_schema : DependencyCertificate → Bool
  decision_schema d =
      is_opaque_id d.certificate_id
      && is_opaque_id d.session_id
      && is_sha256_digest d.action_hash
      && is_opaque_id d.agent_id
      && is_opaque_id d.run_assignment_id
      && is_opaque_id d.run_id
      && is_opaque_id d.receipt_id
      && is_sha256_digest d.decision_digest
      && nullable is_opaque_id d.superseded_by_certificate_id
      && p.is_datetime d.created_at

  pub role_ids_schema : RoleIds → Bool
  role_ids_schema i =
      nullable is_opaque_id i.inventory
      && nullable is_opaque_id i.budget
      && nullable is_opaque_id i.policy

  pub frozen_schema : FrozenAssignments → Bool
  frozen_schema f =
      is_opaque_id f.inventory_agent_id
      && is_opaque_id f.budget_agent_id
      && is_opaque_id f.policy_agent_id

  -- EpochSessionSchema
  unfoldable pub session_schema : EpochSession → Bool
  unfolding role_ids_schema frozen_schema
  session_schema s =
      is_opaque_id s.session_id
      && action_schema p s.action
      && is_sha256_digest s.action_hash
      && is_safe s.session_revision
      && frozen_schema s.frozen_assignments
      && role_ids_schema s.active_decision_certificate_ids
      && role_ids_schema s.active_attempt_ids
      && nullable is_opaque_id s.active_validation_id
      && nullable is_opaque_id s.active_refresh_plan_id
      && nullable is_opaque_id s.active_permit_id
      && p.is_datetime s.state_updated_at
      && p.is_datetime s.created_at
