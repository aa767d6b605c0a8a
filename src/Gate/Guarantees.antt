-- ===== src/Gate/Guarantees.antt =====
-- The guarantees of `commitProtectedEffect` in apps/server/src/epochguard/effect-gate.ts.
use epochguard.Prelude.{
  ℕ, ◌≤◌, String, ◌≡◌, ◌⊎◌, ◌∙◌, ap, sym, inl, inr, true, [], ◌∷◌, ◌++◌, arith, filter, ok, ◌==◌,
  string_eq, length, append-IsUniqueBy,
}
use epochguard.Platform.{Platform}
use epochguard.Contract.Records.{EpochSession}
use epochguard.Contract.Database.{EffectPermit, EffectRecord, EpochDatabase}
use epochguard.Contract.Action.{idempotency_scope}
use epochguard.Gate.Base.{GatePorts, CommitResult, Rejection, committed, rejected, is_effect_of}
use epochguard.Gate.Released.{IsGrounded}
use epochguard.Gate.Release.{Release}
use epochguard.Gate.Commit.{commit_mutation, invalidate_commit_race, new_effect}
use epochguard.Gate.Ready.{IsReady}
use epochguard.Gate.Outcomes.{returned, raced, released, commit_mutation-Returns}

-- No Session has two Effects.
abbrev pub AtMostOnce : EpochDatabase → Type 0
AtMostOnce db = (id : String) → length (filter (is_effect_of id) db.effects) ≤ 1

race-effects :
    (db db' : EpochDatabase) (s : EpochSession) (permit_id timestamp : String)
    (result : CommitResult)
    → (result, db') ≡ invalidate_commit_race db s permit_id timestamp
    → (db'.effects ≡ db.effects) × (r : Rejection) × (result ≡ rejected r)
unfolding invalidate_commit_race
race-effects db db' s permit_id timestamp result h = (ap (λ x. x.1.effects) h, _, ap (λ x. x.0) h)

-- What stands behind a new Effect.
pub record Released (p : Platform) (ports : GatePorts) (db : EpochDatabase) (id : String)
    (expected : ℕ) (e : EffectRecord) (db' : EpochDatabase) : Type 0 where
  pub session : EpochSession
  pub hash : String
  pub permit : EffectPermit
  pub release : Release
  pub unique : filter (λ c. c.session_id == id) db.sessions ≡ session ∷ []
  pub none_yet : filter (is_effect_of session.session_id) db.effects ≡ []
  pub ready :
      IsReady p ports db session hash (idempotency_scope session.session_id hash) expected permit
  pub same_head : db.head_seq ≡ permit.validated_head
  pub same_permit : release.permit ≡ permit
  pub grounded : IsGrounded p ports db session hash release
  pub made : e ≡ new_effect ports session hash (idempotency_scope session.session_id hash) release
  pub appended : db'.effects ≡ db.effects ++ e ∷ []

module _ (p : Platform) (ports : GatePorts) (db : EpochDatabase) (id : String) (expected : ℕ)
    {result : CommitResult} {db' : EpochDatabase}
    (h : commit_mutation p ports db id expected ≡ ok (result, db')) where
  -- At most one Effect in a Session: whatever a mutation of commitProtectedEffect that returns does,
  -- if no Session had two Effects before, none has two after.
  pub commit-AtMostOnce : AtMostOnce db → AtMostOnce db'
  commit-AtMostOnce once =
      let returns = commit_mutation-Returns p ports db id expected result db' h in
      elim returns.outcome [
        | returned e only res same ↦ rw same once
        | raced m none_yet ready moved pair ↦
            let (same, _, _) =
              race-effects db db' returns.session m.permit_id ports.now result pair in
            λ other. rw same (once other)
        | released m r none_yet ready same permit grounded res after ↦
            rw after (append-IsUniqueBy (λ e. e.session_id) db.effects _ once none_yet)
      ]

  -- A new Effect is released only at the head that was validated, with current evidence: the
  -- Session is the only one of its id, had no Effect, was READY_AT_CURRENT_HEAD at the revision that
  -- the client saw, with nothing in flight; its Permit was ISSUED for the Session, the Action and
  -- the current head; for each role an ACTIVE ALLOW Decision rests on a Receipt whose version the
  -- resolver confirms, with a verified value that allows the Action, valid at the head; the head
  -- lies in the recorded intervals; and the Effect is appended to the others.
  pub commit-Released :
      (e : EffectRecord) → result ≡ committed true e → Released p ports db id expected e db'
  commit-Released e created =
      let returns = commit_mutation-Returns p ports db id expected result db' h in
      elim returns.outcome [
        | returned e' only res same ↦ absurd (cc (created, res))
        | raced m none_yet ready moved pair ↦
            let (_, _, res) =
              race-effects db db' returns.session m.permit_id ports.now result pair in
            absurd (cc (created, res))
        | released m r none_yet ready same permit grounded res after ↦
            let key = idempotency_scope returns.session.session_id returns.hash in
            let made : e ≡ new_effect ports returns.session returns.hash key r =
              ground (arith, created, res) in
            record {
              session = returns.session;
              hash = returns.hash;
              permit = m;
              release = r;
              unique = returns.unique;
              none_yet = none_yet;
              ready = ready;
              same_head = same;
              same_permit = permit;
              grounded = grounded;
              made = made;
              appended = ap (λ d. d.effects) after ∙ ap (λ x. db.effects ++ x ∷ []) (sym made);
            }
      ]

  -- The Effects of a mutation that returns.
  pub commit-effects :
      (db'.effects ≡ db.effects)
      ⊎ (e : EffectRecord) × (result ≡ committed true e) × (db'.effects ≡ db.effects ++ e ∷ [])
  commit-effects =
      let returns = commit_mutation-Returns p ports db id expected result db' h in
      elim returns.outcome [
        | returned e only res same ↦ inl (ap (λ d. d.effects) same)
        | raced m none_yet ready moved pair ↦
            inl (race-effects db db' returns.session m.permit_id ports.now result pair).0
        | released m r none_yet ready same permit grounded res after ↦
            inr (_, res, ap (λ d. d.effects) after)
      ]
