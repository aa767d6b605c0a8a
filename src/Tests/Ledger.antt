-- ===== src/Tests/Ledger.antt =====
-- A commit of one change to an empty ledger.
use epochguard.Prelude.{
  ℕ, zero, suc, ◌+◌, ◌≤◌, ◌≡◌, refl, inl, String, Bool, true, false, Option, some, none, List, [],
  ◌∷◌, map, Result, ok, arith, Member,
}
use epochguard.Contract.Records.{WorldCommit, ResourceVersion}
use epochguard.Contract.States.{Role}
use epochguard.Contract.Database.{EpochDatabase}
use epochguard.Store.{empty_database}
use epochguard.World.{
  WorldChangeInput, WorldCommitInput, commit, current_version, next_version, versions_at,
}
use epochguard.World.Closing.{content}
use epochguard.World.Commit.{changes_resource}
use epochguard.World.History.{IsChronological}
use epochguard.World.Ledger.{commit-IsChronological, commit_history, current_version-commit}
use epochguard.World.Refine.{
  timeline_of, extend, extend_all, commit_all, commit_extends, commit_bounds, commit_all-refines,
}
use epochguard.Contract.Identifiers.{max_safe_integer}
use epochguard.Tests.Fixtures.{toy, time, digest, observed_value}

abbrev change : WorldChangeInput
change = record {
  resource_id = "inventory:c1";
  value = observed_value Role.inventory;
  source_revision = none;
}

abbrev input : WorldCommitInput
input = record { changes = change ∷ []; reason = "seed"; expected_seq = none; created_at = none }

abbrev written : ResourceVersion
written = record {
  id = "rv_1_0000000000000000000000000000000000000000000000000000000000000000";
  resource_id = "inventory:c1";
  source_revision = 1;
  value = observed_value Role.inventory;
  value_hash = digest;
  valid_from_seq = 1;
  valid_until_seq = none;
}

abbrev first_record : WorldCommit
first_record = record {
  seq = 1;
  changes =
      record {
        resource_id = "inventory:c1";
        previous_version_id = none;
        next_version_id = written.id;
      }
      ∷ [];
  reason = "seed";
  created_at = time;
}

abbrev after_first : EpochDatabase
after_first = record empty_database {
  head_seq = 1;
  world_commits = first_record ∷ [];
  resource_versions = written ∷ [];
}

first_run : commit toy time empty_database input ≡ ok (first_record, after_first)
unfolding commit epochguard.World.stage_changes epochguard.Prelude.sort
    epochguard.World.stage_change epochguard.World.open_version epochguard.World.resolve_by_revision
    epochguard.Contract.Schemas.version_schema epochguard.Contract.Identifiers.is_opaque_id
    next_version epochguard.Contract.Identifiers.is_sha256_digest epochguard.World.change_entries
    epochguard.Contract.Schemas.commit_schema epochguard.Contract.Identifiers.is_short_text
    epochguard.World.closings_valid epochguard.World.close_versions
first_run = refl

empty-IsChronological : IsChronological empty_database
unfolding versions_at
empty-IsChronological = record { bounded = tt; unique = λ r seq. omega arith }

commit-IsChronological_example :
    IsChronological after_first × (1 ≡ 0 + 1) × (first_record.seq ≡ 0 + 1)
commit-IsChronological_example =
    commit-IsChronological toy time empty_database input first_run empty-IsChronological

commit_history_example :
    (0 ≤ 0
      → map content (versions_at after_first "inventory:c1" 0)
        ≡ map content (versions_at empty_database "inventory:c1" 0))
    × (changes_resource input "inventory:c1" ≡ false
        → versions_at after_first "inventory:c1" 0 ≡ versions_at empty_database "inventory:c1" 0)
commit_history_example = commit_history toy time empty_database input first_run "inventory:c1" 0

current_version-commit_example :
    current_version toy after_first "inventory:c1" ≡ ok (some (next_version toy 1 change))
current_version-commit_example =
    current_version-commit toy time empty_database input first_run empty-IsChronological change
      (inl refl)

commit_extends_example :
    timeline_of after_first "inventory:c1" 1
    ≡ extend toy 0 (change ∷ []) (timeline_of empty_database) "inventory:c1" 1
commit_extends_example =
    commit_extends toy time empty_database input first_run empty-IsChronological "inventory:c1" 1

commit_bounds_example :
    (1 ≤ max_safe_integer)
    × ((v : ResourceVersion)
        → Member v (written ∷ [])
        → (v.valid_from_seq ≤ max_safe_integer)
          × ((u : ℕ) → v.valid_until_seq ≡ some u → u ≤ max_safe_integer))
commit_bounds_example = commit_bounds toy time empty_database input first_run empty-IsChronological

all_run : commit_all toy ((time, input) ∷ []) empty_database ≡ ok after_first
unfolding commit_all
all_run = rw first_run refl

commit_all-refines_example :
    IsChronological after_first
    × (1 ≡ 0 + 1)
    × ((r : String) (seq : ℕ)
        → timeline_of after_first r seq
          ≡ extend_all toy 0 ((time, input) ∷ []) (timeline_of empty_database) r seq)
commit_all-refines_example =
    commit_all-refines toy ((time, input) ∷ []) empty_database after_first all_run
      empty-IsChronological
