-- ===== src/Tests/Receipts.antt =====
-- One Receipt, issued for a Budget Assignment at the head of a ledger.
use epochguard.Prelude.{
  ◌≡◌, refl, String, none, some, inl, inr, Bool-cases, [], ◌∷◌, ◌++◌, ok, arith,
}
use epochguard.Contract.States.{Role}
use epochguard.Contract.RecordStates.{AssignmentState}
use epochguard.Contract.Records.{ResourceVersion, RunAssignment, WorldCommit}
use epochguard.Contract.Action.{role_query, query_role}
use epochguard.Contract.Database.{EpochDatabase}
use epochguard.Store.{empty_database}
use epochguard.World.{
  resource_id_for, versions_at, WorldChangeInput, WorldCommitInput, next_version, commit,
  is_version_at,
}
use epochguard.Receipt.{
  IssueInput, IssuePorts, IssuedObservation, resolve_receipt_version, new_receipt, issue,
}
use epochguard.World.Closing.{content}
use epochguard.World.History.{IsChronological}
use epochguard.World.Refine.{timeline_of, commit_all}
use epochguard.Receipt.Lasting.{issue_lasting}
use epochguard.Receipt.Once.{IsIssuedOnce, resolve_receipt_version-issue, issue-IsIssuedOnce}
use epochguard.Tests.Fixtures.{toy, time, digest, action, assignment, observed_value}

abbrev created : RunAssignment
created = record (assignment Role.budget) {
  bound_run_id = none;
  status = AssignmentState.created;
  consumed_by_decision_certificate_id = none;
  bound_at = none;
  consumed_at = none;
}

abbrev current : ResourceVersion
current = record {
  id = "rv1";
  resource_id = "budget:c1";
  source_revision = 1;
  value = observed_value Role.budget;
  value_hash = digest;
  valid_from_seq = 1;
  valid_until_seq = none;
}

abbrev before : EpochDatabase
before = record empty_database {
  head_seq = 1;
  resource_versions = current ∷ [];
  role_query_specs = role_query toy action Role.budget ∷ [];
  run_assignments = created ∷ [];
}

abbrev input : IssueInput
input = record { action = action; assignment = created; query = role_query toy action Role.budget }

abbrev ports : IssuePorts
ports = record { now = time; nonce = "0123456789abcdef0123456789abcdef" }

abbrev observation : IssuedObservation
observation = record {
  receipt = new_receipt toy ports before input current;
  resource_version = current;
}

abbrev after : EpochDatabase
after = record before { receipts = observation.receipt ∷ [] }

issue_run : issue toy ports before input ≡ ok (observation, after)
unfolding issue epochguard.Receipt.check_assignment epochguard.Receipt.check_stored
    epochguard.Receipt.observe epochguard.Receipt.check_interval resolve_receipt_version
    epochguard.Contract.Action.build_role_query_spec role_query
    epochguard.Contract.Schemas.receipt_schema epochguard.Contract.Schemas.assignment_schema
    epochguard.Contract.Schemas.version_schema epochguard.Contract.Paths.is_evidence_pack_path
    epochguard.World.resolve_version_at resource_id_for epochguard.World.resolve_by_identity
    epochguard.World.resolve_by_revision epochguard.World.parse_verified
    epochguard.Contract.Identifiers.is_opaque_id epochguard.Contract.Identifiers.is_sha256_digest
    epochguard.Contract.Identifiers.is_short_text epochguard.Contract.Action.action_fields_schema
    epochguard.Contract.Json.canonical_json epochguard.Contract.Action.action_schema
issue_run = refl

resolve_receipt_version-issue_example :
    (resolve_receipt_version toy after observation.receipt ≡ ok current)
    × (observation.receipt ≡ new_receipt toy ports before input current)
    × (after ≡ record before { receipts = before.receipts ++ observation.receipt ∷ [] })
    × ((resource : String)
        → resource_id_for toy (query_role input.query) input.query.entity_key ≡ ok resource
        → versions_at before resource 1 ≡ current ∷ [])
resolve_receipt_version-issue_example =
    resolve_receipt_version-issue toy ports before input issue_run

none_issued : IsIssuedOnce before.receipts
none_issued = record {
  by_receipt = λ k. omega arith;
  by_assignment = λ k. omega arith;
  by_nonce = λ k. omega arith;
}

issue-IsIssuedOnce_example : IsIssuedOnce after.receipts
issue-IsIssuedOnce_example = issue-IsIssuedOnce toy ports before input issue_run none_issued

-- The next commit changes the value that the Receipt observed.
abbrev change : WorldChangeInput
change = record {
  resource_id = "budget:c1";
  value = observed_value Role.budget;
  source_revision = none;
}

abbrev commit_input : WorldCommitInput
commit_input = record {
  changes = change ∷ [];
  reason = "spend";
  expected_seq = none;
  created_at = none;
}

abbrev second_record : WorldCommit
second_record = record {
  seq = 2;
  changes =
      record {
        resource_id = "budget:c1";
        previous_version_id = some "rv1";
        next_version_id = (next_version toy 2 change).id;
      }
      ∷ [];
  reason = "spend";
  created_at = time;
}

abbrev later : EpochDatabase
later = record after {
  head_seq = 2;
  world_commits = second_record ∷ [];
  resource_versions = record current { valid_until_seq = some 2 } ∷ next_version toy 2 change ∷ [];
}

second_run : commit toy time after commit_input ≡ ok (second_record, later)
unfolding commit epochguard.World.stage_changes epochguard.Prelude.sort
    epochguard.World.stage_change epochguard.World.open_version epochguard.World.resolve_by_revision
    epochguard.World.parse_verified epochguard.Contract.Schemas.version_schema
    epochguard.Contract.Identifiers.is_opaque_id next_version
    epochguard.Contract.Identifiers.is_sha256_digest epochguard.World.change_entries
    epochguard.Contract.Schemas.commit_schema epochguard.Contract.Identifiers.is_short_text
    epochguard.World.closings_valid epochguard.World.close_versions
second_run = refl

later_run : commit_all toy ((time, commit_input) ∷ []) after ≡ ok later
unfolding commit_all
later_run = rw second_run refl

after-IsChronological : IsChronological after
unfolding versions_at
after-IsChronological = record {
  bounded = (record { begun = omega arith; ended = λ u e. absurd (cc e) }, tt);
  unique = λ r seq. elim (Bool-cases (is_version_at r seq current)) [
    | inl e ↦ rw e (omega arith)
    | inr e ↦ rw e (omega arith)
  ];
}

named : resource_id_for toy Role.budget "c1" ≡ ok "budget:c1"
unfolding resource_id_for epochguard.Contract.Identifiers.is_opaque_id
named = refl

issue_lasting_example : timeline_of later "budget:c1" 1 ≡ content current ∷ []
unfolding role_query
issue_lasting_example =
    issue_lasting toy ports before input issue_run after-IsChronological ((time, commit_input) ∷ [])
      later later_run "budget:c1" named
