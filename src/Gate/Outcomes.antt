-- ===== src/Gate/Outcomes.antt =====
-- The ways in which `commitProtectedEffect` in apps/server/src/epochguard/effect-gate.ts returns
-- from its mutation.
use epochguard.Prelude.{
  ℕ, String, ◌≡◌, ◌≢◌, refl, inl, inr, true, false, not, some, none, List, [], ◌∷◌, arith,
  Result-cases, Bool-cases, filter, find, ok, ◌==◌, string_eq, nat_eq, eq_of_beq, throw_if, ◌>>=◌,
}
use epochguard.Platform.{Platform}
use epochguard.Contract.States.{session_state_eq}
use epochguard.Contract.RecordStates.{permit_state_eq}
use epochguard.Contract.Action.{idempotency_scope}
use epochguard.Contract.Records.{EpochSession}
use epochguard.Contract.Database.{EffectPermit, EffectRecord, EpochDatabase}
use epochguard.Gate.Base.{GatePorts, CommitResult, committed, is_effect_of, malformed}
use epochguard.Gate.Existing.{existing_effect}
use epochguard.Gate.Released.{IsGrounded, release_of-IsGrounded}
use epochguard.Gate.Release.{Release, release_of, active_permit}
use epochguard.Gate.Commit.{
  is_scope_of, write_effect, new_effect, apply_effect, release_effect, first_release, check_ready,
  check_action, session_of, commit_mutation, invalidate_commit_race,
}
use epochguard.Gate.Ready.{IsReady, active_permit-IsReady}
use epochguard.Gate.Returned.{returned_of, absent_of}

-- An Effect of the scope is an Effect of the Session.
find-is_scope_of :
    (session hash key : String) (es : List EffectRecord)
    → filter (is_effect_of session) es ≡ []
    → find (is_scope_of session hash key) es ≡ none
find-is_scope_of session hash key [] h = refl
find-is_scope_of session hash key (e ∷ es) h = elim (Bool-cases (e.session_id == session)) [
  | inr other ↦ let rest = find-is_scope_of session hash key es (ground arith) in ground arith
  | inl same ↦
      let kept : e ∷ filter (is_effect_of session) es ≡ [] = rw same at h in absurd (cc kept)
]

module _ (p : Platform) (ports : GatePorts) (db : EpochDatabase) where
  -- A mutation that returns has found the Session's Effect, has met a moved head, or has written a
  -- new Effect.
  pub data Outcome (s : EpochSession) (hash : String) (expected : ℕ) (result : CommitResult)
      (db' : EpochDatabase) : Type 0 where
    returned :
        (e : EffectRecord)
        → filter (is_effect_of s.session_id) db.effects ≡ e ∷ []
        → result ≡ committed false e
        → db' ≡ db
        → Outcome s hash expected result db'
    raced :
        (m : EffectPermit)
        → filter (is_effect_of s.session_id) db.effects ≡ []
        → IsReady p ports db s hash (idempotency_scope s.session_id hash) expected m
        → db.head_seq ≢ m.validated_head
        → (result, db') ≡ invalidate_commit_race db s m.permit_id ports.now
        → Outcome s hash expected result db'
    released :
        (m : EffectPermit) (r : Release)
        → filter (is_effect_of s.session_id) db.effects ≡ []
        → IsReady p ports db s hash (idempotency_scope s.session_id hash) expected m
        → db.head_seq ≡ m.validated_head
        → r.permit ≡ m
        → IsGrounded p ports db s hash r
        → result ≡ committed true (new_effect ports s hash (idempotency_scope s.session_id hash) r)
        → db' ≡ apply_effect db s (new_effect ports s hash (idempotency_scope s.session_id hash) r)
        → Outcome s hash expected result db'

  write_effect-new :
      (s : EpochSession) (hash key : String) (r : Release) (result : CommitResult)
      (db' : EpochDatabase)
      → filter (is_effect_of s.session_id) db.effects ≡ []
      → write_effect p ports db s hash key r ≡ ok (result, db')
      → (result ≡ committed true (new_effect ports s hash key r))
        × (db' ≡ apply_effect db s (new_effect ports s hash key r))
  unfolding write_effect
  write_effect-new s hash key r result db' none_yet h =
      let absent = find-is_scope_of s.session_id hash key db.effects none_yet in ground arith

  release_effect-Outcome :
      (s : EpochSession) (hash : String) (expected : ℕ) (m : EffectPermit) (result : CommitResult)
      (db' : EpochDatabase)
      → filter (is_effect_of s.session_id) db.effects ≡ []
      → IsReady p ports db s hash (idempotency_scope s.session_id hash) expected m
      → release_effect p ports db s hash (idempotency_scope s.session_id hash) m ≡ ok (result, db')
      → Outcome s hash expected result db'
  unfolding release_effect
  release_effect-Outcome s hash expected m result db' none_yet ready h =
      elim (Bool-cases (db.head_seq == m.validated_head)) [
        | inr moved ↦ raced m none_yet ready (moved_head moved) (race_pair (rw moved at h))
        | inl same ↦ elim (Result-cases (release_of p ports db s hash m)) [
          | inr (_, x) ↦ absurd (ground (arith, rw x at (rw same at h)))
          | inl (r, er) ↦
              let (permit, grounded) = release_of-IsGrounded p ports db s hash m r er in
              let (res, after) =
                write_effect-new s hash (idempotency_scope s.session_id hash) r result db' none_yet
                  (rw er at (rw same at h)) in
              released m r none_yet ready (eq_of_beq db.head_seq m.validated_head same) permit
                grounded res after
        ]
      ]
    where
      moved_head : (db.head_seq == m.validated_head) ≡ false → db.head_seq ≢ m.validated_head
      moved_head e = λ h. ground (arith, e, h)

      race_pair :
          (throw_if (not (p.is_datetime ports.now)) malformed >>= λ _.
          ok (invalidate_commit_race db s m.permit_id ports.now))
            ≡ ok (result, db')
          → (result, db') ≡ invalidate_commit_race db s m.permit_id ports.now
      race_pair e = ground arith

  first_release-Outcome :
      (s : EpochSession) (hash : String) (expected : ℕ) (result : CommitResult)
      (db' : EpochDatabase)
      → filter (is_effect_of s.session_id) db.effects ≡ []
      → first_release p ports db s hash (idempotency_scope s.session_id hash) expected
        ≡ ok (result, db')
      → Outcome s hash expected result db'
  unfolding first_release
  first_release-Outcome s hash expected result db' none_yet h =
      elim (Result-cases (check_ready p ports db s expected)) [
        | inr (_, x) ↦ absurd (ground arith)
        | inl (u, eu) ↦
            elim (Result-cases
              (active_permit p ports db s hash (idempotency_scope s.session_id hash))) [
                | inr (_, x) ↦ absurd (ground arith)
                | inl (m, em) ↦
                    release_effect-Outcome s hash expected m result db' none_yet
                      (active_permit-IsReady p ports db s hash expected m u em eu) (ground arith)
              ]
      ]

  -- The Session that a mutation that returns is about, and how it returns.
  pub record Returns (id : String) (expected : ℕ) (result : CommitResult) (db' : EpochDatabase)
      : Type 0 where
    pub session : EpochSession
    pub unique : filter (λ c. c.session_id == id) db.sessions ≡ session ∷ []
    pub hash : String
    pub checked : check_action p ports db session ≡ ok hash
    pub outcome : Outcome session hash expected result db'

  session_of_unique :
      (id : String) (found : List EpochSession) (s : EpochSession)
      → session_of p ports db id found ≡ ok s
      → found ≡ s ∷ []
  session_of_unique id [] s h = cc
  session_of_unique id (a ∷ []) s h = ground arith
  session_of_unique id (a ∷ b ∷ found) s h = cc

  pub commit_mutation-Returns :
      (id : String) (expected : ℕ) (result : CommitResult) (db' : EpochDatabase)
      → commit_mutation p ports db id expected ≡ ok (result, db')
      → Returns id expected result db'
  unfolding commit_mutation existing_effect
  commit_mutation-Returns id expected result db' h =
      elim (Result-cases
        (session_of p ports db id (filter (λ c. c.session_id == id) db.sessions))) [
          | inr (_, x) ↦ absurd (ground arith)
          | inl (s, es) ↦ elim (Result-cases (check_action p ports db s)) [
            | inr (_, x) ↦ absurd (ground arith)
            | inl (hash, eh) ↦
                elim (Result-cases
                  (existing_effect p ports db s hash (idempotency_scope s.session_id hash))) [
                    | inr (_, x) ↦ absurd (ground arith)
                    | inl (none, absent) ↦ record {
                      session = s;
                      unique = session_of_unique id _ s es;
                      hash = hash;
                      checked = eh;
                      outcome =
                          first_release-Outcome s hash expected result db'
                            (absent_of p ports db s hash (idempotency_scope s.session_id hash) _
                              absent)
                            (ground arith);
                    }
                    | inl (some existing, present) ↦
                        let (e, only, res) =
                          returned_of p ports db s hash (idempotency_scope s.session_id hash)
                            existing _ present in
                        record {
                          session = s;
                          unique = session_of_unique id _ s es;
                          hash = hash;
                          checked = eh;
                          outcome = returned e only (ground arith) (ground arith);
                        }
                  ]
          ]
        ]
