-- ===== src/View.antt =====
-- The session view, apps/server/src/epochguard/session-view-builder.ts:
-- `assertEffectLedgerClosure`, which a projection of a Session runs before it shows its gate, and the
-- error that it throws. The database that it reads has been parsed, so its times are dates.
pub mod Backed
use epochguard.Prelude.{
  ℕ, String, Bool, true, false, not, ◌&&◌, ◌||◌, Option, none, some, List, [], ◌∷◌, ◌==◌, ◌!=◌,
  string_eq, nat_eq, option_eq, is_null, filter, any, length, Result, ok, err, throw_if, ◌>>=◌,
  ◌>>◌,
}
use epochguard.Platform.{Platform}
use epochguard.Contract.RecordStates.{PermitState, permit_state_eq}
use epochguard.Contract.Records.{EpochSession}
use epochguard.Contract.Database.{EffectPermit, EffectRecord, EpochDatabase}

-- SessionViewBuilderErrorCode
pub data SessionViewBuilderErrorCode : Type 0 where
  session_not_found : SessionViewBuilderErrorCode
  unsupported_schema : SessionViewBuilderErrorCode
  projection_mismatch : SessionViewBuilderErrorCode

-- SessionViewBuilderError
pub record SessionViewBuilderError : Type 0 where
  pub code : SessionViewBuilderErrorCode
  pub session_id : String
  pub snapshot_revision : Option ℕ

-- The error that projectionFailure throws.
abbrev pub projection_failure : String → Option ℕ → SessionViewBuilderError
projection_failure session_id revision = record {
  code = SessionViewBuilderErrorCode.projection_mismatch;
  session_id = session_id;
  snapshot_revision = revision;
}

abbrev pub Viewed : Type 0 → Type 0
Viewed A = Result SessionViewBuilderError A

module _ (p : Platform) (db : EpochDatabase) (s : EpochSession) where
  abbrev pub mismatch : SessionViewBuilderError
  mismatch = projection_failure s.session_id (some db.snapshot_revision)

  abbrev pub session_permits : List EffectPermit
  session_permits = filter (λ m. m.session_id == s.session_id) db.permits

  abbrev pub session_effects : List EffectRecord
  session_effects = filter (λ e. e.session_id == s.session_id) db.effects

  abbrev pub linked_effects : EffectPermit → List EffectRecord
  linked_effects m = filter (λ e. e.permit_id == m.permit_id) db.effects

  -- What a consumption leaves: a time and one Effect.
  abbrev pub consumption_mismatch : Bool → EffectPermit → Bool
  consumption_mismatch true m = is_null m.consumed_at || length (linked_effects m) != 1
  consumption_mismatch false m = not (is_null m.consumed_at) || length (linked_effects m) != 0

  abbrev pub consumed_early : EffectPermit → Option String → Bool
  consumed_early m none = false
  consumed_early m (some t) = not (p.date_le m.issued_at t)

  -- The first linked Effect against its Permit.
  abbrev pub effect_mismatch : EffectPermit → List EffectRecord → Bool
  effect_mismatch m [] = false
  effect_mismatch m (e ∷ es) =
      is_null m.consumed_at
      || e.session_id != s.session_id
      || e.action_hash != s.action_hash
      || e.idempotency_key != s.action.idempotency_key
      || e.idempotency_key != m.idempotency_key
      || e.dependency_set_hash != m.dependency_set_hash
      || e.joint_validity_certificate_id != m.joint_validity_certificate_id
      || some e.created_at != m.consumed_at

  -- One round of the loop of assertEffectLedgerClosure.
  unfoldable pub is_unclosed : EffectPermit → Bool
  is_unclosed m =
      m.action_hash != s.action_hash
      || m.idempotency_key != s.action.idempotency_key
      || consumption_mismatch (m.status == PermitState.consumed) m
      || consumed_early m m.consumed_at
      || effect_mismatch m (linked_effects m)

  -- An Effect outside the Permits of the Session.
  unfoldable pub is_stray : EffectRecord → Bool
  is_stray e = length (filter (λ m. m.permit_id == e.permit_id) session_permits) != 1

  -- assertEffectLedgerClosure
  unfoldable pub assert_effect_ledger_closure : Viewed (Unit {0})
  assert_effect_ledger_closure = do
    throw_if (any is_unclosed session_permits) mismatch
    throw_if (any is_stray session_effects) mismatch
