-- ===== src/World.antt =====
-- The world ledger, apps/server/src/epochguard/world-ledger.ts: resolution of resource versions and
-- `WorldLedger.commit`. The proofs are in the modules below.
pub mod Closing
pub mod Refine
pub mod Ledger
pub mod History
pub mod Commit
pub mod Staged
pub mod Rounds
use epochguard.Prelude.{
  ℕ, ◌+◌, String, Bool, true, false, not, ◌&&◌, Option, none, some, List, [], ◌∷◌, ◌++◌, map, leb,
  ltb, ◌==◌, ◌!=◌, string_eq, nat_eq, is_null, concat, str_lt, filter, any, includes, sort,
  update_first, Result, ok, err, ◌>>=◌, ◌>>◌, throw_if,
}
use epochguard.Platform.{Platform}
use epochguard.Contract.Values.{JsonValue, JsonFields}
use epochguard.Contract.Json.{value_digest, canonical_json}
use epochguard.Contract.States.{Source}
use epochguard.Contract.Action.{role_name}
use epochguard.Contract.Identifiers.{is_safe, is_opaque_id}
use epochguard.Contract.Records.{WorldChange, WorldCommit, ResourceVersion}
use epochguard.Contract.Schemas.{version_schema, commit_schema}
use epochguard.Contract.Database.{EpochDatabase}

-- What the ledger throws, one constructor to a message; `malformed` is a Zod error.
pub data WorldError : Type 0 where
  malformed hash_mismatch unsafe_head unsafe_next unsafe_seq unsafe_revision : WorldError
  no_changes unexpected_seq seq_exists repeated_resource open_starts_late : WorldError
  revision_exists version_id_collision : WorldError
  multiple_open overlapping_versions duplicate_revision : WorldError

-- WorldChangeInput
pub record WorldChangeInput : Type 0 where
  pub resource_id : String
  pub value : JsonValue
  pub source_revision : Option ℕ

-- WorldCommitInput
pub record WorldCommitInput : Type 0 where
  pub changes : List WorldChangeInput
  pub reason : String
  pub expected_seq : Option ℕ
  pub created_at : Option String

-- `matches.length > 1` throws; otherwise `matches[0]`.
abbrev pub at_most_one : {E A : Type 0} → E → List A → Result E (Option A)
at_most_one e [] = ok none
at_most_one e (x ∷ []) = ok (some x)
at_most_one e _ = err e

abbrev pub is_open_of : String → ResourceVersion → Bool
is_open_of r v = v.resource_id == r && is_null v.valid_until_seq

-- The half-open interval of a version contains `seq`.
abbrev pub covers : ℕ → ResourceVersion → Bool
covers seq v =
    leb v.valid_from_seq seq && elim v.valid_until_seq [ none ↦ true | some until ↦ ltb seq until ]

abbrev pub is_version_at : String → ℕ → ResourceVersion → Bool
is_version_at r seq v = v.resource_id == r && covers seq v

-- The filter of resolveResourceVersionAt
unfoldable pub versions_at : EpochDatabase → String → ℕ → List ResourceVersion
versions_at db r seq = filter (is_version_at r seq) db.resource_versions

abbrev pub has_revision : String → ℕ → ResourceVersion → Bool
has_revision r revision v = v.resource_id == r && v.source_revision == revision

abbrev pub or_default : {A : Type 0} → Option A → A → A
or_default none d = d
or_default (some a) d = a

module _ (p : Platform) where
  unfoldable pub parse_verified : ResourceVersion → Result WorldError ResourceVersion
  parse_verified v = do
    throw_if (not (version_schema p v)) malformed
    throw_if (v.value_hash != value_digest p v.value) hash_mismatch
    ok v

  abbrev pub verify_match : Option ResourceVersion → Result WorldError (Option ResourceVersion)
  verify_match none = ok none
  verify_match (some v) = do w ← parse_verified v; ok (some w)

  unfoldable pub open_version : EpochDatabase → String → Result WorldError (Option ResourceVersion)
  unfolding parse_verified
  open_version db r = do
    found ← at_most_one multiple_open (filter (is_open_of r) db.resource_versions)
    verify_match found

  unfoldable pub resolve_version_at :
      EpochDatabase → String → ℕ → Result WorldError (Option ResourceVersion)
  unfolding parse_verified versions_at
  resolve_version_at db r seq = do
    throw_if (not (is_safe seq)) unsafe_seq
    found ← at_most_one overlapping_versions (versions_at db r seq)
    verify_match found

  unfoldable pub resolve_by_revision :
      EpochDatabase → String → ℕ → Result WorldError (Option ResourceVersion)
  resolve_by_revision db r revision =
      at_most_one duplicate_revision (filter (has_revision r revision) db.resource_versions)

  -- resourceIdFor
  unfoldable pub resource_id_for : Source → String → Result WorldError String
  resource_id_for source key = do
    throw_if (not (is_opaque_id key)) malformed
    let r = concat (role_name source) (concat ":" key)
    throw_if (not (is_opaque_id r)) malformed
    ok r

  unfoldable pub resolve_by_identity :
      EpochDatabase → Source → String → ℕ → Result WorldError (Option ResourceVersion)
  unfolding parse_verified resolve_by_revision resource_id_for
  resolve_by_identity db source key revision = do
    throw_if (not (is_safe revision)) unsafe_revision
    r ← resource_id_for source key
    found ← resolve_by_revision db r revision
    verify_match found

  -- versionIdFor: `digest.slice("sha256:".length)` is the hexadecimal part.
  unfoldable pub version_id_for : String → ℕ → ℕ → String → String
  unfolding canonical_json
  version_id_for r revision from hash = concat "rv_" (
      concat (p.json_number from) (
        concat "_" (
          p.sha256_hex (
            canonical_json p (
              JsonValue.object (
                JsonFields.field "resourceId" (JsonValue.text r) (
                  JsonFields.field "sourceRevision" (JsonValue.number revision) (
                    JsonFields.field "validFromSeq" (JsonValue.number from)
                      (JsonFields.field "valueHash" (JsonValue.text hash) JsonFields.end)))))))))

  -- The version that a commit at `next` writes for one change.
  unfoldable pub next_version : ℕ → WorldChangeInput → ResourceVersion
  unfolding version_id_for value_digest canonical_json
  next_version next c =
      let revision = or_default c.source_revision next in
      let value = p.json_parse (canonical_json p c.value) in
      let hash = value_digest p value in
      record {
        id = version_id_for c.resource_id revision next hash;
        resource_id = c.resource_id;
        source_revision = revision;
        value = value;
        value_hash = hash;
        valid_from_seq = next;
        valid_until_seq = none;
      }

-- The variables of the loop over the sorted changes.
pub record Staging : Type 0 where
  pub seen : List String
  pub pending : List ResourceVersion
  pub to_close : List ResourceVersion
  pub known_ids : List String

abbrev pub starts_late : ℕ → Option ResourceVersion → Bool
starts_late next none = false
starts_late next (some v) = leb next v.valid_from_seq

abbrev pub push_some : {A : Type 0} → List A → Option A → List A
push_some xs none = xs
push_some xs (some x) = xs ++ x ∷ []

abbrev pub close_at : ℕ → ResourceVersion → ResourceVersion
close_at next v = record v { valid_until_seq = some next }

-- `for (const version of versionsToClose) version.validUntilSeq = nextSeq`. Each entry is the open
-- version of its resource in the database, and the assignment changes it there.
unfoldable pub close_versions :
    ℕ → List ResourceVersion → List ResourceVersion → List ResourceVersion
close_versions next [] vs = vs
close_versions next (c ∷ cs) vs =
    close_versions next cs (update_first (is_open_of c.resource_id) (close_at next) vs)

module _ (p : Platform) where
  -- The body of the loop over the changes.
  unfoldable pub stage_change :
      EpochDatabase → ℕ → Staging → WorldChangeInput → Result WorldError Staging
  stage_change db next st c = do
    throw_if (includes st.seen c.resource_id) repeated_resource
    previous ← open_version p db c.resource_id
    throw_if (starts_late next previous) open_starts_late
    throw_if (not (is_safe (or_default c.source_revision next))) unsafe_revision
    same ← resolve_by_revision p db c.resource_id (or_default c.source_revision next)
    throw_if (not (is_null same)) revision_exists
    let v = next_version p next c
    throw_if (not (version_schema p v)) malformed
    throw_if (includes st.known_ids v.id) version_id_collision
    ok (record {
      seen = c.resource_id ∷ st.seen;
      pending = st.pending ++ v ∷ [];
      to_close = push_some st.to_close previous;
      known_ids = v.id ∷ st.known_ids;
    })

  unfoldable pub stage_changes :
      EpochDatabase → ℕ → Staging → List WorldChangeInput → Result WorldError Staging
  stage_changes db next st [] = ok st
  stage_changes db next st (c ∷ cs) = do
    st' ← stage_change db next st c
    stage_changes db next st' cs

  -- The entry of a commit for one pending version.
  abbrev pub change_entry : EpochDatabase → ResourceVersion → Result WorldError WorldChange
  change_entry db v = do
    previous ← open_version p db v.resource_id
    ok (record {
      resource_id = v.resource_id;
      previous_version_id = elim previous [ none ↦ none | some w ↦ some w.id ];
      next_version_id = v.id;
    })

  unfoldable pub change_entries :
      EpochDatabase → List ResourceVersion → Result WorldError (List WorldChange)
  change_entries db [] = ok []
  change_entries db (v ∷ vs) = do
    entry ← change_entry db v
    entries ← change_entries db vs
    ok (entry ∷ entries)

  -- ResourceVersionSchema.parse of each closed version, before any is written.
  unfoldable pub closings_valid : ℕ → List ResourceVersion → Bool
  closings_valid next [] = true
  closings_valid next (v ∷ vs) = version_schema p (close_at next v) && closings_valid next vs

  abbrev pub is_expected : ℕ → Option ℕ → Bool
  is_expected next none = true
  is_expected next (some seq) = seq == next

  abbrev pub change_lt : WorldChangeInput → WorldChangeInput → Bool
  change_lt a b = str_lt a.resource_id b.resource_id

  abbrev pub initial_staging : EpochDatabase → Staging
  initial_staging db = record {
    seen = [];
    pending = [];
    to_close = [];
    known_ids = map (λ v. v.id) db.resource_versions;
  }

  abbrev pub commit_record : String → ℕ → WorldCommitInput → List WorldChange → WorldCommit
  commit_record now next input entries = record {
    seq = next;
    changes = entries;
    reason = input.reason;
    created_at = or_default input.created_at now;
  }

  -- The three writes at the end of `commit`.
  abbrev pub apply_commit : EpochDatabase → ℕ → Staging → WorldCommit → EpochDatabase
  apply_commit db next st commit = record db {
    resource_versions = close_versions next st.to_close db.resource_versions ++ st.pending;
    world_commits = db.world_commits ++ commit ∷ [];
    head_seq = next;
  }

  -- WorldLedger.commit; `now` is the time that `this.now()` returns.
  unfoldable pub commit :
      String → EpochDatabase → WorldCommitInput → Result WorldError (WorldCommit × EpochDatabase)
  commit now db input = do
    throw_if (not (is_safe db.head_seq)) unsafe_head
    throw_if (elim input.changes [ [] ↦ true | _ ↦ false ]) no_changes
    let next = db.head_seq + 1
    throw_if (not (is_safe next)) unsafe_next
    throw_if (not (is_expected next input.expected_seq)) unexpected_seq
    throw_if (any (λ c. c.seq == next) db.world_commits) seq_exists
    st ← stage_changes db next (initial_staging db) (sort change_lt input.changes)
    entries ← change_entries db st.pending
    let record_of_commit = commit_record now next input entries
    throw_if (not (commit_schema p record_of_commit)) malformed
    throw_if (not (closings_valid next st.to_close)) malformed
    ok (record_of_commit, apply_commit db next st record_of_commit)

  -- WorldLedger.currentVersion
  unfoldable pub current_version :
      EpochDatabase → String → Result WorldError (Option ResourceVersion)
  unfolding resolve_version_at
  current_version db r = do
    throw_if (not (is_safe db.head_seq)) unsafe_head
    resolve_version_at p db r db.head_seq
