-- ===== src/Tests/Initialize.antt =====
-- A store that is initialized over no file.
use epochguard.Prelude.{ℕ, ◌≡◌, refl, true, none, some, ok}
use epochguard.Store.{EpochStore, empty_database}
use epochguard.Store.Initialize.{initialize, absent}
use epochguard.Tests.Fixtures.{toy}

abbrev fresh : EpochStore
fresh = record { data_now = empty_database; file = none }

abbrev saved : EpochStore
saved = record { data_now = empty_database; file = some empty_database }

first_start : initialize {E = ℕ} toy absent true fresh ≡ (ok tt, saved)
unfolding initialize
first_start = refl
