-- ===== src/Store/Initialize.antt =====
-- The start of the store, `initialize` of apps/server/src/epochguard/epoch-store.ts.
use epochguard.Prelude.{Bool, some, Result, ok, err, if◌then◌else◌}
use epochguard.Platform.{Platform}
use epochguard.Contract.Database.{EpochDatabase}
use epochguard.Contract.EvidenceSchemas.{database_schema}
use epochguard.Store.{EpochStore, StoreError, empty_database}

-- What readFile and JSON.parse answer: ENOENT, another error, or a value for the schema to parse.
pub data FileRead : Type 0 where
  absent : FileRead
  unreadable : FileRead
  read : EpochDatabase → FileRead

-- EpochStore.initialize; `written` says whether persist succeeds.
unfoldable pub initialize :
    {E : Type 0}
    → Platform
    → FileRead
    → Bool
    → EpochStore
    → Result (StoreError E) (Unit {0}) × EpochStore
initialize p unreadable written store = (err StoreError.unwritten, store)
initialize p (read db) written store =
    if database_schema p db
    then (ok tt, record store { data_now = db })
    else (err StoreError.invalid, store)
initialize p absent written store =
    if written
    then (ok tt, record { data_now = empty_database; file = some empty_database })
    else (err StoreError.unwritten, store)
