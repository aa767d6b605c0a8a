-- ===== src/Contract/States.antt =====
-- The roles, verdicts and life-cycle states of apps/server/src/epochguard/types.ts. Equality goes
-- through the position of a value in the source's array of values.
use epochguard.Prelude.{ℕ, ◌≡◌, refl, List, [], ◌∷◌, Eq, eq_by_index, get_or}

pub data Role : Type 0 where
  inventory budget policy : Role

-- ROLES (SOURCES has the same values): the values in the order of the source.
abbrev pub roles : List Role
roles = Role.inventory ∷ Role.budget ∷ Role.policy ∷ []

abbrev pub role_index : Role → ℕ
role_index Role.inventory = 0
role_index Role.budget = 1
role_index Role.policy = 2

pub roles-role_index : (a : Role) → get_or roles (role_index a) Role.inventory ≡ a
roles-role_index Role.inventory = refl
roles-role_index _ = refl

instance abbrev pub role_eq : Eq Role
role_eq = eq_by_index roles role_index Role.inventory roles-role_index

-- A source carries the name of the role that it serves.
abbrev pub Source : Type 0
Source = Role

pub data Verdict : Type 0 where
  allow deny : Verdict

-- VERDICTS: the values in the order of the source.
abbrev pub verdicts : List Verdict
verdicts = Verdict.allow ∷ Verdict.deny ∷ []

abbrev pub verdict_index : Verdict → ℕ
verdict_index Verdict.allow = 0
verdict_index Verdict.deny = 1

pub verdicts-verdict_index : (a : Verdict) → get_or verdicts (verdict_index a) Verdict.allow ≡ a
verdicts-verdict_index Verdict.allow = refl
verdicts-verdict_index _ = refl

instance abbrev pub verdict_eq : Eq Verdict
verdict_eq = eq_by_index verdicts verdict_index Verdict.allow verdicts-verdict_index

pub data SessionState : Type 0 where
  created dispatching collecting validating blocked_no_cut historical_stale reobserving
        unstable_world consistent_deny ready_at_current_head committing committed commit_race failed
        interrupted :
      SessionState

-- SESSION_STATES: the values in the order of the source.
abbrev pub session_states : List SessionState
session_states =
    SessionState.created ∷ SessionState.dispatching ∷ SessionState.collecting
    ∷ SessionState.validating ∷ SessionState.blocked_no_cut ∷ SessionState.historical_stale
    ∷ SessionState.reobserving ∷ SessionState.unstable_world ∷ SessionState.consistent_deny
    ∷ SessionState.ready_at_current_head ∷ SessionState.committing ∷ SessionState.committed
    ∷ SessionState.commit_race ∷ SessionState.failed ∷ SessionState.interrupted ∷ []

abbrev pub session_state_index : SessionState → ℕ
session_state_index SessionState.created = 0
session_state_index SessionState.dispatching = 1
session_state_index SessionState.collecting = 2
session_state_index SessionState.validating = 3
session_state_index SessionState.blocked_no_cut = 4
session_state_index SessionState.historical_stale = 5
session_state_index SessionState.reobserving = 6
session_state_index SessionState.unstable_world = 7
session_state_index SessionState.consistent_deny = 8
session_state_index SessionState.ready_at_current_head = 9
session_state_index SessionState.committing = 10
session_state_index SessionState.committed = 11
session_state_index SessionState.commit_race = 12
session_state_index SessionState.failed = 13
session_state_index SessionState.interrupted = 14

pub session_states-session_state_index :
    (a : SessionState) → get_or session_states (session_state_index a) SessionState.created ≡ a
session_states-session_state_index SessionState.created = refl
session_states-session_state_index _ = refl

instance abbrev pub session_state_eq : Eq SessionState
session_state_eq =
    eq_by_index session_states session_state_index SessionState.created
      session_states-session_state_index
