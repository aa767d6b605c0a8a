-- ===== src/Gate/Retried.antt =====
-- A repeated request to `commitProtectedEffect` in apps/server/src/epochguard/effect-gate.ts.
use epochguard.Prelude.{
  ℕ, String, Bool, ◌≡◌, refl, ◌∙◌, ap, sym, true, false, List, [], ◌∷◌, ◌++◌, filter, ok, ◌==◌,
  string_eq, eq_of_beq, single-filter, filter-append,
}
use epochguard.Platform.{Platform}
use epochguard.Contract.Records.{EpochSession}
use epochguard.Contract.Database.{EffectRecord, EpochDatabase}
use epochguard.Gate.Base.{GatePorts, CommitResult, committed, is_effect_of}
use epochguard.Gate.Commit.{commit_mutation, invalidate_commit_race}
use epochguard.Gate.Outcomes.{returned, raced, released, Returns, commit_mutation-Returns}

race_committed :
    (db db' : EpochDatabase) (s : EpochSession) (permit_id timestamp : String) (b : Bool)
    (e : EffectRecord)
    → (committed b e, db') ≡ invalidate_commit_race db s permit_id timestamp
    → ⊥
unfolding invalidate_commit_race
race_committed db db' s permit_id timestamp b e h = absurd (cc h)

committed_effect : (b b' : Bool) (e e' : EffectRecord) → committed b e ≡ committed b' e' → e ≡ e'
committed_effect b b' e e' h = cc h

singleton : (e e' : EffectRecord) → e ∷ [] ≡ e' ∷ [] → e ≡ e'
singleton e e' h = cc h

empty_single : (es : List EffectRecord) (e : EffectRecord) → es ≡ e ∷ [] → es ≡ [] → ⊥
empty_single es e one none_yet = absurd (cc (one, none_yet))

-- An Effect appended to those of other Sessions.
appended_single :
    (es : List EffectRecord) (e : EffectRecord) (id : String)
    → filter (is_effect_of id) es ≡ []
    → e.session_id ≡ id
    → filter (is_effect_of id) (es ++ e ∷ []) ≡ e ∷ []
appended_single es e id none_yet own =
    let owned : (e.session_id == id) ≡ true = (string_eq.beq_iff e.session_id id).1 own in
    rw (filter-append (is_effect_of id) es (e ∷ []), none_yet, owned) refl

module _ (p : Platform) where
  own_session :
      (ports : GatePorts) (db db' : EpochDatabase) (id : String) (expected : ℕ)
      (result : CommitResult) (r : Returns p ports db id expected result db')
      → r.session.session_id ≡ id
  own_session ports db db' id expected result r =
      let (_, own) =
        single-filter (λ c. c.session_id == id) db.sessions r.session (rw r.unique refl) in
      eq_of_beq r.session.session_id id own

  -- The Effect of a commit that succeeds is the only one of its Session.
  commit_single :
      (ports : GatePorts) (db db' : EpochDatabase) (id : String) (expected : ℕ) (b : Bool)
      (e : EffectRecord)
      → commit_mutation p ports db id expected ≡ ok (committed b e, db')
      → filter (is_effect_of id) db'.effects ≡ e ∷ []
  commit_single ports db db' id expected b e h =
      let returns = commit_mutation-Returns p ports db id expected (committed b e) db' h in
      let own = own_session ports db db' id expected (committed b e) returns in
      elim returns.outcome [
        | returned found only res same ↦
            let eq = committed_effect b false e found res in rw (same, eq) (rw own at only)
        | raced m none_yet ready moved pair ↦
            absurd (race_committed db db' returns.session m.permit_id ports.now b e pair)
        | released m r none_yet ready same permit grounded res after ↦
            let made = committed_effect b true e _ res in
            rw after (
              appended_single db.effects _ id (rw own at none_yet) own
              ∙ ap (λ x. x ∷ []) (sym made))
      ]

  -- A commit that has succeeded is not done again: once a commit mutation has returned an Effect,
  -- created by it or before it, a mutation for the same Session that returns on any later database
  -- with the same Effects of that Session returns that Effect, created false, and leaves the database
  -- as it is, whatever the ports and the revision given are.
  pub commit_retried :
      (ports ports' : GatePorts) (db db' later later' : EpochDatabase) (id : String)
      (expected expected' : ℕ) (b : Bool) (e : EffectRecord) (result : CommitResult)
      → commit_mutation p ports db id expected ≡ ok (committed b e, db')
      → filter (is_effect_of id) later.effects ≡ filter (is_effect_of id) db'.effects
      → commit_mutation p ports' later id expected' ≡ ok (result, later')
      → (result ≡ committed false e) × (later' ≡ later)
  commit_retried ports ports' db db' later later' id expected expected' b e result h kept h' =
      let only = kept ∙ commit_single ports db db' id expected b e h in
      let returns = commit_mutation-Returns p ports' later id expected' result later' h' in
      let own = own_session ports' later later' id expected' result returns in
      elim returns.outcome [
        | returned found one res same ↦
            let heads : found ∷ [] ≡ e ∷ [] = sym (rw own at one) ∙ only in
            (rw (singleton found e heads) at res, same)
        | raced m none_yet ready moved pair ↦ absurd (empty_single _ e only (rw own at none_yet))
        | released m r none_yet ready same permit grounded res after ↦
            absurd (empty_single _ e only (rw own at none_yet))
      ]
