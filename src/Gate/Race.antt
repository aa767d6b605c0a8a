-- ===== src/Gate/Race.antt =====
-- The commit race of apps/server/src/epochguard/effect-gate.ts.
use epochguard.Contract.States.{SessionState}
use epochguard.Prelude.{
  ℕ, ◌+◌, String, ◌≡◌, ◌≢◌, refl, ap, true, none, [], ◌∷◌, filter, ok, ◌==◌, string_eq, beq_refl,
  filter-update_first_single, ◌∙◌, single-filter, eq_of_beq, arith,
}
use epochguard.Platform.{Platform}
use epochguard.Contract.RecordStates.{FailureCode, PermitState, permit_state_eq}
use epochguard.Contract.Records.{EpochSession}
use epochguard.Contract.Database.{EffectPermit, EpochDatabase}
use epochguard.Gate.Base.{GatePorts, rejected, Rejection}
use epochguard.Gate.Commit.{commit_mutation, invalidate_commit_race, race_session, revoke_issued}
use epochguard.Gate.Outcomes.{returned, raced, released, commit_mutation-Returns}

-- What a race leaves: the head had moved from that of the Permit, the Permit is revoked, the Session
-- is in COMMIT_RACE without a Permit and at the next revision, and the Effects are as they were.
pub record Raced (db : EpochDatabase) (id : String) (expected : ℕ) (r : Rejection)
    (db' : EpochDatabase) : Type 0 where
  pub session : EpochSession
  pub permit : EffectPermit
  pub timestamp : String
  pub reason : r.reason_code ≡ FailureCode.commit_race
  pub current_view : expected ≡ session.session_revision
  pub moved : db.head_seq ≢ permit.validated_head
  pub sessions :
      filter (λ c. c.session_id == id) db'.sessions
      ≡ record session {
        state = SessionState.commit_race;
        active_permit_id = none;
        session_revision = session.session_revision + 1;
        state_updated_at = timestamp;
      }
        ∷ []
  pub permits :
      filter (λ c. c.permit_id == permit.permit_id) db'.permits
      ≡ record permit { status = PermitState.revoked; consumed_at = none } ∷ []
  pub effects : db'.effects ≡ db.effects

module _ (db : EpochDatabase) (s : EpochSession) (m : EffectPermit) (timestamp : String) where
  raced_sessions :
      filter (λ c. c.session_id == s.session_id) db.sessions ≡ s ∷ []
      → filter
          (λ c. c.session_id == s.session_id)
          (invalidate_commit_race db s m.permit_id timestamp).1.sessions
        ≡ race_session timestamp s ∷ []
  unfolding invalidate_commit_race
  raced_sessions only =
      filter-update_first_single (λ c. c.session_id == s.session_id) (race_session timestamp) s
        (beq_refl s.session_id) db.sessions only

  raced_permits :
      m.status ≡ PermitState.issued
      → filter (λ c. c.permit_id == m.permit_id) db.permits ≡ m ∷ []
      → filter
          (λ c. c.permit_id == m.permit_id)
          (invalidate_commit_race db s m.permit_id timestamp).1.permits
        ≡ record m { status = PermitState.revoked; consumed_at = none } ∷ []
  unfolding invalidate_commit_race
  raced_permits issued only =
      let held : (m.status == PermitState.issued) ≡ true =
        (permit_state_eq.beq_iff m.status PermitState.issued).1 issued in
      let revoked_m : revoke_issued m
          ≡ record m { status = PermitState.revoked; consumed_at = none } =
        rw held refl in
      filter-update_first_single (λ c. c.permit_id == m.permit_id) revoke_issued m
        (rw revoked_m (beq_refl m.permit_id)) db.permits only
      ∙ ap (λ c. c ∷ []) revoked_m

race_reason :
    (db db' : EpochDatabase) (s : EpochSession) (permit_id timestamp : String) (r : Rejection)
    → (rejected r, db') ≡ invalidate_commit_race db s permit_id timestamp
    → (r.reason_code ≡ FailureCode.commit_race) × (db'.effects ≡ db.effects)
unfolding invalidate_commit_race
race_reason db db' s permit_id timestamp r h = (ground arith, ap (λ x. x.1.effects) h)

module _ (p : Platform) (ports : GatePorts) (db : EpochDatabase) (id : String) (expected : ℕ)
    {r : Rejection} {db' : EpochDatabase}
    (h : commit_mutation p ports db id expected ≡ ok (rejected r, db')) where
  -- The only rejection that a commit mutation returns, instead of aborting, is a race: the head had
  -- moved from that of the Permit, the Permit is now REVOKED, the Session is in COMMIT_RACE without a
  -- Permit and at the next revision, and the Effects are as they were.
  pub commit-Raced : Raced db id expected r db'
  commit-Raced =
      let returns = commit_mutation-Returns p ports db id expected (rejected r) db' h in
      elim returns.outcome [
        | returned e only res same ↦ absurd (cc res)
        | released m rel none_yet ready same permit grounded res after ↦ absurd (cc res)
        | raced m none_yet ready moved pair ↦
            let s = returns.session in
            let (reason, effects) = race_reason db db' s m.permit_id ports.now r pair in
            let after : db' ≡ (invalidate_commit_race db s m.permit_id ports.now).1 =
              ap (λ x. x.1) pair in
            let (_, owned) =
              single-filter (λ c. c.session_id == id) db.sessions s (rw returns.unique refl) in
            let own : s.session_id ≡ id = eq_of_beq s.session_id id owned in
            record {
              session = s;
              permit = m;
              timestamp = ports.now;
              reason = reason;
              current_view = ready.current_view;
              moved = moved;
              sessions =
                  rw (after, ← own) (raced_sessions db s m ports.now (rw own returns.unique));
              permits = rw after (raced_permits db s m ports.now ready.issued ready.only);
              effects = effects;
            }
      ]
