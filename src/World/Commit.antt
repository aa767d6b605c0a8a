-- ===== src/World/Commit.antt =====
-- What a commit of apps/server/src/epochguard/world-ledger.ts that does not throw has found and
-- written.
use epochguard.Prelude.{
  ◌+◌, String, ◌≡◌, inl, inr, Bool, true, List, arith, sort, ok, Result-cases, any, includes,
  Member, Member-sort, Member-map, any-sort, ◌==◌, string_eq, sym, ◌∙◌, or_false,
}
use epochguard.Platform.{Platform}
use epochguard.Contract.Identifiers.{is_safe}
use epochguard.Contract.Records.{WorldChange, WorldCommit}
use epochguard.Contract.Schemas.{version_schema}
use epochguard.Contract.Database.{EpochDatabase}
use epochguard.World.{
  WorldChangeInput, WorldCommitInput, Staging, stage_changes, change_entries, initial_staging,
  change_lt, commit, commit_record, apply_commit, next_version,
}
use epochguard.World.Staged.{
  IsStaged, stage_changes-IsStaged, initial_staging-IsStaged, pending-stage_changes,
  seen-stage_changes, schema-stage_changes,
}

abbrev pub changes_resource : WorldCommitInput → String → Bool
changes_resource input r = any (λ c. c.resource_id == r) input.changes

-- The staged variables behind a commit, with what they hold.
pub record Committed (p : Platform) (db : EpochDatabase) (input : WorldCommitInput)
    (wc : WorldCommit) (db' : EpochDatabase) : Type 0 where
  pub st : Staging
  pub next_safe : is_safe (db.head_seq + 1) ≡ true
  pub staged : IsStaged db.resource_versions (db.head_seq + 1) st
  pub seen : (r : String) → includes st.seen r ≡ changes_resource input r
  pub pending :
      (c : WorldChangeInput)
      → Member c input.changes
      → Member (next_version p (db.head_seq + 1) c) st.pending
  pub valid :
      (c : WorldChangeInput)
      → Member c input.changes
      → version_schema p (next_version p (db.head_seq + 1) c) ≡ true
  pub written : db' ≡ apply_commit p db (db.head_seq + 1) st wc
  pub seq : wc.seq ≡ db.head_seq + 1

module _ (p : Platform) (now : String) (db : EpochDatabase) (input : WorldCommitInput)
    {wc : WorldCommit} {db' : EpochDatabase} (h : commit p now db input ≡ ok (wc, db')) where
  abbrev sorted : List WorldChangeInput
  sorted = sort (change_lt p) input.changes

  commit_facts :
      (st : Staging) (entries : List WorldChange)
      → stage_changes p db (db.head_seq + 1) (initial_staging p db) sorted ≡ ok st
      → change_entries p db st.pending ≡ ok entries
      → (is_safe (db.head_seq + 1) ≡ true)
        × (commit_record p now (db.head_seq + 1) input entries ≡ wc)
        × (apply_commit p db (db.head_seq + 1) st wc ≡ db')
  unfolding commit
  commit_facts st entries staged listed = ground arith

  pub commit-Committed : Committed p db input wc db'
  unfolding commit
  commit-Committed =
      elim (Result-cases (stage_changes p db (db.head_seq + 1) (initial_staging p db) sorted)) [
        | inr (_, e) ↦ absurd (ground arith)
        | inl (st, staged) ↦ elim (Result-cases (change_entries p db st.pending)) [
          | inr (_, e) ↦ absurd (ground arith)
          | inl (entries, listed) ↦
              let (safe, same, written) = commit_facts st entries staged listed in
              record {
                st = st;
                next_safe = safe;
                staged =
                    stage_changes-IsStaged p db (db.head_seq + 1) sorted _ staged
                      (initial_staging-IsStaged p db (db.head_seq + 1));
                seen = λ r.
                    seen-stage_changes p db (db.head_seq + 1) sorted _ r staged
                    ∙ or_false _
                    ∙ any-sort (change_lt p) (λ c. c.resource_id == r) input.changes;
                pending = λ c m. rw (pending-stage_changes p db (db.head_seq + 1) sorted _ staged) (
                    Member-map (next_version p (db.head_seq + 1)) sorted c
                      (Member-sort (change_lt p) c input.changes m));
                valid = λ c m.
                    schema-stage_changes p db (db.head_seq + 1) sorted _ staged c
                      (Member-sort (change_lt p) c input.changes m);
                written = sym written;
                seq = rw (← same);
              }
        ]
      ]
