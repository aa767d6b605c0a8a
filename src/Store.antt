-- ===== src/Store.antt =====
-- The store, apps/server/src/epochguard/epoch-store.ts: the database in memory and its file. The
-- queue of writers runs mutations one after the other, so each is one step from store to store.
-- Clones have no counterpart: values of the model are never shared.
pub mod Initialize
use epochguard.Prelude.{
  ◌+◌, ◌≡◌, refl, inl, inr, Bool, true, false, Option, some, [], Result, ok, err, Bool-cases,
  if◌then◌else◌,
}
use epochguard.Platform.{Platform}
use epochguard.Contract.Database.{EpochDatabase}
use epochguard.Contract.EvidenceSchemas.{database_schema}

-- What a mutation rejects with: its own error, a Zod error of the new database, or an error of the
-- file system.
pub data StoreError (E : Type 0) : Type 0 where
  thrown : E → StoreError E
  invalid : StoreError E
  unwritten : StoreError E

-- The private `data`, and the content of the file at `filePath` once it exists.
pub record EpochStore : Type 0 where
  pub data_now : EpochDatabase
  pub file : Option EpochDatabase

-- emptyEpochDatabase
abbrev pub empty_database : EpochDatabase
empty_database = record {
  snapshot_revision = 0;
  head_seq = 0;
  role_agent_registrations = [];
  world_commits = [];
  resource_versions = [];
  role_query_specs = [];
  run_assignments = [];
  receipts = [];
  sessions = [];
  attempts = [];
  decisions = [];
  validations = [];
  joint_validity_certificates = [];
  no_cut_proofs = [];
  refresh_plans = [];
  permits = [];
  effects = [];
  rejected_output_artifacts = [];
}

abbrev pub next_revision : EpochStore → EpochDatabase → EpochDatabase
next_revision store db = record db { snapshot_revision = store.data_now.snapshot_revision + 1 }

module _ {E A : Type 0} (p : Platform) where
  -- The parse, persist and publication of a database that a mutation has left.
  unfoldable pub publish :
      EpochStore → Bool → A → EpochDatabase → Result (StoreError E) A × EpochStore
  publish store written a next =
      if database_schema p next
      then (if written
          then (ok a, record { data_now = next; file = some next })
          else (err unwritten, store))
      else (err invalid, store)

  abbrev pub after_mutation :
      EpochStore → Bool → Result E (A × EpochDatabase) → Result (StoreError E) A × EpochStore
  after_mutation store written (err e) = (err (thrown e), store)
  after_mutation store written (ok (a, db)) = publish store written a (next_revision store db)

  -- EpochStore.mutate; `written` says whether persist succeeds, whose rename replaces the file at
  -- once or not at all.
  unfoldable pub mutate :
      EpochStore
      → (EpochDatabase → Result E (A × EpochDatabase))
      → Bool
      → Result (StoreError E) A × EpochStore
  unfolding publish
  mutate store mutation written = after_mutation store written (mutation store.data_now)

module _ (p : Platform) where
  -- The file holds the database in memory, which the schema admits.
  pub record IsConsistent (store : EpochStore) : Type 0 where
    pub saved : store.file ≡ some store.data_now
    pub valid : database_schema p store.data_now ≡ true

  -- The ways in which a mutation settles.
  pub data Settled {E A : Type 0} (store : EpochStore) (m : Result E (A × EpochDatabase))
      (r : Result (StoreError E) A) (store' : EpochStore) : Type 0 where
    published :
        (a : A) (db : EpochDatabase)
        → m ≡ ok (a, db)
        → r ≡ ok a
        → store'.data_now ≡ next_revision store db
        → IsConsistent store'
        → Settled store m r store'
    refused : (e : StoreError E) → r ≡ err e → store' ≡ store → Settled store m r store'

  saved_of :
      {E A : Type 0} (store : EpochStore) (a : A) (db : EpochDatabase) (written : Bool)
      → database_schema p (next_revision store db) ≡ true
      → let outcome : Result (StoreError E) A × EpochStore =
          if written
          then (
            ok a,
            record { data_now = next_revision store db; file = some (next_revision store db) },
          )
          else (err unwritten, store) in
        Settled store (ok (a, db)) outcome.0 outcome.1
  saved_of store a db true valid =
      published a db refl refl refl (record { saved = refl; valid = valid })
  saved_of store a db false valid = refused unwritten refl refl

  after_mutation-Settled :
      {E A : Type 0} (store : EpochStore) (m : Result E (A × EpochDatabase)) (written : Bool)
      → Settled store m (after_mutation p store written m).0 (after_mutation p store written m).1
  unfolding publish
  after_mutation-Settled store (err e) written = refused (thrown e) refl refl
  after_mutation-Settled store (ok (a, db)) written =
      elim (Bool-cases (database_schema p (next_revision store db))) [
        | inr failing ↦ rw failing (refused StoreError.invalid refl refl)
        | inl valid ↦ rw valid (saved_of store a db written valid)
      ]

  -- A mutation is all or nothing: it resolves, and then the store holds what the mutation left with
  -- the next snapshot revision, admitted by the schema and saved in the file, or it rejects and the
  -- store and its file are as they were.
  pub mutate-Settled :
      {E A : Type 0} (store : EpochStore) (f : EpochDatabase → Result E (A × EpochDatabase))
      (written : Bool)
      → Settled store (f store.data_now) (mutate p store f written).0 (mutate p store f written).1
  unfolding mutate
  mutate-Settled store f written = after_mutation-Settled store (f store.data_now) written
