-- ===== src/Gate/Commit.antt =====
-- `commitProtectedEffect` and `invalidateCommitRace` in
-- apps/server/src/epochguard/effect-gate.ts.
use epochguard.Prelude.{
  ℕ, ◌+◌, String, Bool, true, false, not, ◌&&◌, ◌||◌, Option, none, some, List, [], ◌∷◌, ◌++◌, ◌==◌,
  ◌!=◌, string_eq, nat_eq, option_eq, filter, find, any, update_first, ok, err, ◌>>=◌, ◌>>◌,
  throw_if, if◌then◌else◌,
}
use epochguard.Platform.{Platform}
use epochguard.Contract.States.{SessionState, role_eq, session_state_eq}
use epochguard.Contract.RecordStates.{FailureCode, PermitState, permit_state_eq, outcome_eq}
use epochguard.Contract.Action.{action_schema, action_digest, idempotency_scope}
use epochguard.Contract.Records.{EpochSession}
use epochguard.Contract.Database.{EffectPermit, EffectRecord, EpochDatabase}
use epochguard.Contract.EvidenceSchemas.{effect_schema}
use epochguard.Gate.Base.{
  GatePorts, Gated, aborted, malformed, CommitResult, committed, rejected, rejection, reject_if,
  no_active_attempt, is_live_plan_of, effect_scope_count,
}
use epochguard.Gate.Existing.{existing_effect}
use epochguard.Gate.Release.{Release, active_permit, release_of}

-- The writes. `session` and `permitRecord` are the only entries with their ids.
abbrev pub put_session : EpochDatabase → String → (EpochSession → EpochSession) → List EpochSession
put_session db id f = update_first (λ c. c.session_id == id) f db.sessions

abbrev pub put_permit : EpochDatabase → String → (EffectPermit → EffectPermit) → List EffectPermit
put_permit db id f = update_first (λ c. c.permit_id == id) f db.permits

abbrev pub revoke_issued : EffectPermit → EffectPermit
revoke_issued m =
    if m.status == PermitState.issued
    then record m { status = PermitState.revoked; consumed_at = none }
    else m

abbrev pub consume_permit : String → EffectPermit → EffectPermit
consume_permit timestamp m = record m {
  status = PermitState.consumed;
  consumed_at = some timestamp;
}

abbrev pub race_session : String → EpochSession → EpochSession
race_session timestamp s = record s {
  state = SessionState.commit_race;
  active_permit_id = none;
  session_revision = s.session_revision + 1;
  state_updated_at = timestamp;
}

abbrev pub close_session : String → EpochSession → EpochSession
close_session timestamp s = record s {
  state = SessionState.committed;
  session_revision = s.session_revision + 1;
  state_updated_at = timestamp;
}

-- invalidateCommitRace
unfoldable pub invalidate_commit_race :
    EpochDatabase → EpochSession → String → String → CommitResult × EpochDatabase
unfolding effect_scope_count
invalidate_commit_race db s permit_id timestamp =
    let outcome = rejected (record {
      reason_code = FailureCode.commit_race;
      effects_in_session = effect_scope_count db s.session_id;
      error = none;
    }) in
    (
      outcome,
      record db {
        permits = put_permit db permit_id revoke_issued;
        sessions = put_session db s.session_id (race_session timestamp);
      },
    )

-- The object that EffectRecordSchema.parse receives.
abbrev pub new_effect : GatePorts → EpochSession → String → String → Release → EffectRecord
new_effect ports s hash key r = record {
  effect_id = ports.effect_id;
  idempotency_key = key;
  permit_id = r.permit.permit_id;
  session_id = s.session_id;
  action_hash = hash;
  dependency_set_hash = r.dependency_hash;
  joint_validity_certificate_id = r.certificate.certificate_id;
  created_at = ports.now;
}

abbrev pub apply_effect : EpochDatabase → EpochSession → EffectRecord → EpochDatabase
apply_effect db s e = record db {
  effects = db.effects ++ e ∷ [];
  permits = put_permit db e.permit_id (consume_permit e.created_at);
  sessions = put_session db s.session_id (close_session e.created_at);
}

abbrev pub is_scope_of : String → String → String → EffectRecord → Bool
is_scope_of session hash key e =
    e.session_id == session && e.action_hash == hash && e.idempotency_key == key

module _ (p : Platform) (ports : GatePorts) (db : EpochDatabase) where
  -- The end of the mutation: a concurrent Effect, or the new one and the writes.
  unfoldable pub write_effect :
      EpochSession → String → String → Release → Gated (CommitResult × EpochDatabase)
  write_effect s hash key r = elim (find (is_scope_of s.session_id hash key) db.effects) [
    | some e ↦ (throw_if (not (effect_schema p e)) malformed >>= λ _. ok (committed false e, db))
    | none ↦
        (throw_if (not (p.is_datetime ports.now)) malformed >>= λ _.
        let e = new_effect ports s hash key r in
        throw_if (not (effect_schema p e)) malformed >>= λ _.
        reject_if (any (λ c. c.effect_id == e.effect_id) db.effects) FailureCode.binding_mismatch 0
        >>= λ _. ok (committed true e, apply_effect db s e))
  ]

  -- The Permit's head is still the current one, or the commit is a race.
  unfoldable pub release_effect :
      EpochSession → String → String → EffectPermit → Gated (CommitResult × EpochDatabase)
  unfolding release_of write_effect invalidate_commit_race
  release_effect s hash key m =
      if db.head_seq == m.validated_head
      then release_of p ports db s hash m >>= write_effect s hash key
      else throw_if (not (p.is_datetime ports.now)) malformed >>= λ _.
          ok (invalidate_commit_race db s m.permit_id ports.now)

  -- The revision that the client saw, and a Session that is ready and has nothing in flight.
  unfoldable pub check_ready : EpochSession → ℕ → Gated (Unit {0})
  check_ready s expected = do
    throw_if (expected != s.session_revision) (
        aborted (record {
          reason_code = FailureCode.stale_view;
          effects_in_session = 0;
          error = some (record {
            session_id = s.session_id;
            expected_session_revision = expected;
            actual_session_revision = s.session_revision;
          });
        }))
    reject_if (s.state != SessionState.ready_at_current_head) FailureCode.binding_mismatch 0
    reject_if (not (no_active_attempt s) || any (is_live_plan_of s.session_id) db.refresh_plans)
        FailureCode.binding_mismatch 0

  -- What follows when the Session has no Effect yet.
  unfoldable pub first_release :
      EpochSession → String → String → ℕ → Gated (CommitResult × EpochDatabase)
  unfolding check_ready active_permit release_effect
  first_release s hash key expected = do
    check_ready s expected
    m ← active_permit p ports db s hash key
    release_effect s hash key m

  -- The Session and its Action, before any Effect is looked up.
  unfoldable pub check_action : EpochSession → Gated String
  unfolding effect_scope_count action_schema action_digest
  check_action s = do
    let n = effect_scope_count db s.session_id
    reject_if (not (action_schema p s.action)) FailureCode.action_hash_mismatch n
    let hash = action_digest p s.action
    reject_if
        (s.action_hash != hash
          || s.action.action_hash != hash
          || s.action.session_id != s.session_id
          || s.action.idempotency_key != idempotency_scope s.session_id hash)
        FailureCode.action_hash_mismatch n
    ok hash

  abbrev pub session_of : String → List EpochSession → Gated EpochSession
  session_of id [] = err (rejection FailureCode.session_not_found 0)
  session_of id (s ∷ []) = ok s
  session_of id _ = err (rejection FailureCode.binding_mismatch (effect_scope_count db id))

  abbrev pub release_or_return :
      EpochSession → String → ℕ → Option CommitResult → Gated (CommitResult × EpochDatabase)
  release_or_return s hash expected (some result) = ok (result, db)
  release_or_return s hash expected none =
      first_release s hash (idempotency_scope s.session_id hash) expected

  -- The mutation that commitProtectedEffect passes to the store.
  unfoldable pub commit_mutation : String → ℕ → Gated (CommitResult × EpochDatabase)
  unfolding first_release check_action existing_effect
  commit_mutation id expected = do
    s ← session_of id (filter (λ c. c.session_id == id) db.sessions)
    hash ← check_action s
    existing ← existing_effect p ports db s hash (idempotency_scope s.session_id hash)
    release_or_return s hash expected existing
