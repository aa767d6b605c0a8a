-- ===== src/Gate/Ready.antt =====
-- What `commitProtectedEffect` in apps/server/src/epochguard/effect-gate.ts has checked of a Session
-- and its Permit before it compares the heads.
use epochguard.Prelude.{
  ℕ, sym, String, ◌≡◌, ◌∙◌, ap, inl, inr, true, false, some, arith, Option-cases, single, filter,
  any, ok, ◌==◌, string_eq, nat_eq, eq_of_beq, single-filter, single-eq, [], ◌∷◌,
}
use epochguard.Platform.{Platform}
use epochguard.Contract.States.{SessionState, session_state_eq}
use epochguard.Contract.RecordStates.{PermitState, permit_state_eq}
use epochguard.Contract.Action.{idempotency_scope}
use epochguard.Contract.Records.{EpochSession}
use epochguard.Contract.Database.{EffectPermit, EpochDatabase}
use epochguard.Gate.Base.{GatePorts, no_active_attempt, is_live_plan_of}
use epochguard.Gate.Release.{active_permit, permit_guard}
use epochguard.Gate.Commit.{check_ready}

module _ (p : Platform) (ports : GatePorts) (db : EpochDatabase) where
  -- What holds of the Session and its Permit before the heads are compared.
  pub record IsReady (s : EpochSession) (hash key : String) (expected : ℕ) (m : EffectPermit)
      : Type 0 where
    pub current_view : expected ≡ s.session_revision
    pub ready : s.state ≡ SessionState.ready_at_current_head
    pub idle : no_active_attempt s ≡ true
    pub no_plan : any (is_live_plan_of s.session_id) db.refresh_plans ≡ false
    pub points : s.active_permit_id ≡ some m.permit_id
    pub only : filter (λ c. c.permit_id == m.permit_id) db.permits ≡ m ∷ []
    pub issued : m.status ≡ PermitState.issued
    pub same_session : m.session_id ≡ s.session_id
    pub same_action : m.action_hash ≡ hash
    pub same_key : m.idempotency_key ≡ key

  check_ready-facts :
      (s : EpochSession) (expected : ℕ) (u : Unit {0})
      → check_ready p ports db s expected ≡ ok u
      → (expected ≡ s.session_revision)
        × ((s.state == SessionState.ready_at_current_head) ≡ true)
        × (no_active_attempt s ≡ true)
        × (any (is_live_plan_of s.session_id) db.refresh_plans ≡ false)
  unfolding check_ready
  check_ready-facts s expected u h = (ground arith, ground arith, ground arith, ground arith)

  permit_guard-facts :
      (s : EpochSession) (hash key id : String) (found m : EffectPermit)
      → permit_guard p ports db s hash key found ≡ ok m
      → (found ≡ m)
        × ((found.status == PermitState.issued) ≡ true)
        × ((found.session_id == s.session_id) ≡ true)
        × ((found.action_hash == hash) ≡ true)
        × ((found.idempotency_key == key) ≡ true)
  unfolding permit_guard
  permit_guard-facts s hash key id found m h =
      (ground arith, ground arith, ground arith, ground arith, ground arith)

  active_permit-found :
      (s : EpochSession) (hash key : String) (m : EffectPermit)
      → active_permit p ports db s hash key ≡ ok m
      → (id : String) × (found : EffectPermit) × (s.active_permit_id ≡ some id)
        × (found.permit_id ≡ id)
        × (filter (λ c. c.permit_id == id) db.permits ≡ found ∷ [])
        × (permit_guard p ports db s hash key found ≡ ok m)
  unfolding active_permit
  active_permit-found s hash key m h = elim (Option-cases s.active_permit_id) [
    | inl x ↦ absurd (ground arith)
    | inr (id, points) ↦ elim (Option-cases (single (filter (λ c. c.permit_id == id) db.permits))) [
      | inl x ↦ absurd (ground arith)
      | inr (found, x) ↦
          let (_, named) = single-filter (λ c. c.permit_id == id) db.permits found x in
          let only = single-eq (filter (λ c. c.permit_id == id) db.permits) found x in
          (id, found, points, eq_of_beq found.permit_id id named, only, ground arith)
    ]
  ]

  pub active_permit-IsReady :
      (s : EpochSession) (hash : String) (expected : ℕ) (m : EffectPermit) (u : Unit {0})
      → active_permit p ports db s hash (idempotency_scope s.session_id hash) ≡ ok m
      → check_ready p ports db s expected ≡ ok u
      → IsReady s hash (idempotency_scope s.session_id hash) expected m
  active_permit-IsReady s hash expected m u h ready =
      let key = idempotency_scope s.session_id hash in
      let (seen, state, idle, no_plan) = check_ready-facts s expected u ready in
      let (id, found, points, own, only, guarded) = active_permit-found s hash key m h in
      let (same, issued, session, action, scope) =
        permit_guard-facts s hash key id found m guarded in
      rw (← same) (record {
        current_view = seen;
        ready = eq_of_beq s.state SessionState.ready_at_current_head state;
        idle = idle;
        no_plan = no_plan;
        points = points ∙ ap some (sym own);
        only = rw own only;
        issued = eq_of_beq found.status PermitState.issued issued;
        same_session = eq_of_beq found.session_id s.session_id session;
        same_action = eq_of_beq found.action_hash hash action;
        same_key = eq_of_beq found.idempotency_key key scope;
      })
