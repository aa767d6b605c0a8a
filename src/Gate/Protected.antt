-- ===== src/Gate/Protected.antt =====
-- The whole of `commitProtectedEffect` in apps/server/src/epochguard/effect-gate.ts: the parse of
-- the request, the mutation of the store, and the catch of AbortEffectCommit.
use epochguard.Prelude.{
  ℕ, String, ◌≡◌, refl, inl, inr, Bool, true, [], ◌∷◌, ◌++◌, Bool-cases, Result, ok, err, string_eq,
  nat_eq, if◌then◌else◌,
}
use epochguard.Platform.{Platform}
use epochguard.Contract.Identifiers.{is_safe}
use epochguard.Contract.RecordStates.{permit_state_eq}
use epochguard.Contract.Database.{EffectRecord, EpochDatabase}
use epochguard.Store.{
  EpochStore, StoreError, thrown, mutate, Settled, published, refused, mutate-Settled,
}
use epochguard.Gate.Base.{
  GatePorts, GateError, aborted, malformed, CommitResult, committed, rejected,
}
use epochguard.Gate.Commit.{commit_mutation}
use epochguard.Gate.Guarantees.{AtMostOnce, commit-AtMostOnce, commit-effects}

-- `if (error instanceof AbortEffectCommit) return error.result; throw error`
abbrev pub catch_abort :
    Result (StoreError GateError) CommitResult → Result (StoreError GateError) CommitResult
catch_abort (err (thrown (aborted r))) = ok (rejected r)
catch_abort r = r

module _ (p : Platform) (ports : GatePorts) where
  -- commitProtectedEffect
  unfoldable pub commit_protected_effect :
      EpochStore → String → ℕ → Bool → Result (StoreError GateError) CommitResult × EpochStore
  unfolding mutate
  commit_protected_effect store id expected written =
      if is_safe expected
      then (let settled = mutate p store (λ db. commit_mutation p ports db id expected) written in
          (catch_abort settled.0, settled.1))
      else (err (thrown malformed), store)

  mutation-AtMostOnce :
      (store store' : EpochStore) (id : String) (expected : ℕ)
      (r : Result (StoreError GateError) CommitResult)
      → Settled p store (commit_mutation p ports store.data_now id expected) r store'
      → AtMostOnce store.data_now
      → AtMostOnce store'.data_now
  mutation-AtMostOnce store store' id expected r (published a db returned_ok res same _) once =
      let after = commit-AtMostOnce p ports store.data_now id expected returned_ok once in
      λ other. rw same (after other)
  mutation-AtMostOnce store store' id expected r (refused e res same) once = rw same once

  -- At most one Effect in a Session, for the whole operation: whatever the request, the clock, the
  -- resolver, the Effect id factory and the file system do, a store in which no Session has two
  -- Effects is left as such a store.
  pub protected-AtMostOnce :
      (store : EpochStore) (id : String) (expected : ℕ) (written : Bool)
      → AtMostOnce store.data_now
      → AtMostOnce (commit_protected_effect store id expected written).1.data_now
  unfolding commit_protected_effect
  protected-AtMostOnce store id expected written once = elim (Bool-cases (is_safe expected)) [
    | inr unsafe ↦ rw unsafe once
    | inl safe ↦ rw safe (
        mutation-AtMostOnce store _ id expected _
          (mutate-Settled p store (λ db. commit_mutation p ports db id expected) written) once)
  ]

  -- The Effects of one store before and of one store after, and what the caller is told.
  pub data EffectsChange (before after : EpochDatabase)
      (r : Result (StoreError GateError) CommitResult) : Type 0 where
    kept : after.effects ≡ before.effects → EffectsChange before after r
    added :
        (e : EffectRecord)
        → r ≡ ok (committed true e)
        → after.effects ≡ before.effects ++ e ∷ []
        → EffectsChange before after r

  mutation-EffectsChange :
      (store store' : EpochStore) (id : String) (expected : ℕ)
      (r : Result (StoreError GateError) CommitResult)
      → Settled p store (commit_mutation p ports store.data_now id expected) r store'
      → EffectsChange store.data_now store'.data_now (catch_abort r)
  mutation-EffectsChange store store' id expected r (published a db returned_ok res same _) =
      elim (commit-effects p ports store.data_now id expected returned_ok) [
        | inl unchanged ↦ kept (rw same unchanged)
        | inr (e, created, grown) ↦ added e (rw (res, created)) (rw same grown)
      ]
  mutation-EffectsChange store store' id expected r (refused e res same) = kept (rw same)

  -- An Effect is never released without a word: the whole operation leaves the Effects as they
  -- were, or it appends one Effect and resolves to COMMITTED with `created: true` and that Effect.
  pub protected-EffectsChange :
      (store : EpochStore) (id : String) (expected : ℕ) (written : Bool)
      → EffectsChange store.data_now
          (commit_protected_effect store id expected written).1.data_now
          (commit_protected_effect store id expected written).0
  unfolding commit_protected_effect
  protected-EffectsChange store id expected written = elim (Bool-cases (is_safe expected)) [
    | inr unsafe ↦ rw unsafe (kept refl)
    | inl safe ↦ rw safe (
        mutation-EffectsChange store _ id expected _
          (mutate-Settled p store (λ db. commit_mutation p ports db id expected) written))
  ]
