-- ===== src/Contract/Errors.antt =====
-- The error bodies of apps/server/src/epochguard/types.ts that the mutations answer with. Fields
-- whose schema is a literal (error, message) have no entry.
use epochguard.Prelude.{ℕ, String, Bool, ◌&&◌}
use epochguard.Contract.Identifiers.{is_opaque_id, is_safe}

-- StaleViewErrorBody
pub record StaleView : Type 0 where
  pub session_id : String
  pub expected_session_revision : ℕ
  pub actual_session_revision : ℕ

-- StaleViewErrorBodySchema
unfoldable pub stale_view_schema : StaleView → Bool
stale_view_schema e =
    is_opaque_id e.session_id
    && is_safe e.expected_session_revision
    && is_safe e.actual_session_revision

-- AlreadyReobservingErrorBody
pub record AlreadyReobserving : Type 0 where
  pub session_id : String
  pub refresh_plan_id : String
  pub attempt_id : String

-- AlreadyReobservingErrorBodySchema
unfoldable pub already_reobserving_schema : AlreadyReobserving → Bool
already_reobserving_schema e =
    is_opaque_id e.session_id && is_opaque_id e.refresh_plan_id && is_opaque_id e.attempt_id
