-- ===== src/World/Ledger.antt =====
-- What `WorldLedger.commit` of apps/server/src/epochguard/world-ledger.ts guarantees of the ledger.
use epochguard.Prelude.{
  ℕ, ◌+◌, ◌≤◌, String, ◌≡◌, refl, true, false, some, map, arith, Member, ok, string_eq,
}
use text.Mathlib.TextEquality.{eq_iff}
use epochguard.Platform.{Platform}
use epochguard.Contract.Records.{WorldCommit, ResourceVersion}
use epochguard.Contract.Json.{value_digest}
use epochguard.Contract.Schemas.{version_schema}
use epochguard.Contract.Database.{EpochDatabase}
use epochguard.World.{
  WorldChangeInput, WorldCommitInput, versions_at, commit, next_version, current_version,
  parse_verified,
}
use epochguard.World.Closing.{content}
use epochguard.World.Commit.{commit-Committed, changes_resource}
use epochguard.World.History.{
  IsChronological, after-IsChronological, after-head, history_of, unchanged_of, after-changed,
}

parse_verified-eq :
    (p : Platform) (v : ResourceVersion)
    → version_schema p v ≡ true
    → v.value_hash ≡ value_digest p v.value
    → parse_verified p v ≡ ok v
unfolding parse_verified
parse_verified-eq p v valid hash =
    ground (arith, valid, eq_iff v.value_hash (value_digest p v.value))

module _ (p : Platform) (now : String) (db : EpochDatabase) (input : WorldCommitInput)
    {wc : WorldCommit} {db' : EpochDatabase} (h : commit p now db input ≡ ok (wc, db')) where
  -- A commit that returns keeps the ledger chronological: every interval is bounded by the head,
  -- and at every sequence at most one version of a resource is valid. The head moves to the next
  -- sequence, which is the sequence of the commit's record.
  pub commit-IsChronological :
      IsChronological db
      → IsChronological db' × (db'.head_seq ≡ db.head_seq + 1) × (wc.seq ≡ db.head_seq + 1)
  commit-IsChronological w =
      let k = commit-Committed p now db input h in (after-IsChronological k w, after-head k, k.seq)

  -- A commit that returns does not rewrite history: up to the old head the same versions are valid
  -- as before, but for their ends, and of a resource that it does not change the same versions are
  -- valid at every sequence, ends included.
  pub commit_history :
      (r : String) (seq : ℕ)
      → (seq ≤ db.head_seq
          → map content (versions_at db' r seq) ≡ map content (versions_at db r seq))
        × (changes_resource input r ≡ false → versions_at db' r seq ≡ versions_at db r seq)
  commit_history r seq =
      let k = commit-Committed p now db input h in (history_of k r seq, unchanged_of k r seq)

  next_version-verified :
      (c : WorldChangeInput)
      → version_schema p (next_version p (db.head_seq + 1) c) ≡ true
      → parse_verified p (next_version p (db.head_seq + 1) c)
        ≡ ok (next_version p (db.head_seq + 1) c)
  unfolding next_version
  next_version-verified c valid = parse_verified-eq p _ valid refl

  -- After a commit that returns on a chronological ledger, currentVersion finds for every change
  -- the version that the commit wrote for it: open, from the new head on, with the change's value.
  pub current_version-commit :
      IsChronological db
      → (c : WorldChangeInput) → Member c input.changes
      → current_version p db' c.resource_id ≡ ok (some (next_version p (db.head_seq + 1) c))
  unfolding current_version
  current_version-commit w c m =
      let k = commit-Committed p now db input h in
      let selected = after-changed k w c (db.head_seq + 1) m (omega arith) in
      rw (after-head k, k.next_safe, selected, next_version-verified c (k.valid c m))
