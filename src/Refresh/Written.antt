-- ===== src/Refresh/Written.antt =====
-- What the updates of the Session and of its plan leave, in the mutation of `claimRefreshPlan` in
-- apps/server/src/epochguard/refresh-planner.ts.
use epochguard.Prelude.{
  String, ◌≡◌, ◌∙◌, ap, refl, inl, true, [], ◌∷◌, arith, string_eq, filter, update_first, eq_of_beq,
  beq_refl, and_left, and_right, Member-filter, filter-update_first_single,
  filter-update_first_within,
}
use epochguard.Platform.{Platform}
use epochguard.Contract.Records.{EpochSession}
use epochguard.Contract.Database.{RefreshPlan, EpochDatabase}
use epochguard.Refresh.{RefreshPorts}
use epochguard.Refresh.Claim.{RefreshSessionRequest}
use epochguard.Refresh.Request.{is_session, is_plan_of, is_requested}
use epochguard.Refresh.Outcome.{Addressed}

module _ (p : Platform) (ports : RefreshPorts) (now : String) (db : EpochDatabase)
    (request : RefreshSessionRequest) (session_id : String) (s : EpochSession) (plan : RefreshPlan)
    (k : Addressed p ports now db request session_id s plan) where
  pub named_session : s.session_id ≡ session_id
  named_session =
      let (_, named) =
        Member-filter (is_session session_id) s db.sessions (rw k.session (inl refl)) in
      eq_of_beq s.session_id session_id named

  pub named_plan : plan.refresh_plan_id ≡ request.refresh_plan_id
  named_plan = eq_of_beq plan.refresh_plan_id request.refresh_plan_id (and_left _ _ k.requested)

  -- The one plan of the Session, after an update that keeps its Session.
  pub plans_after :
      (f : RefreshPlan → RefreshPlan)
      → is_plan_of s.session_id (f plan) ≡ is_plan_of s.session_id plan
      → filter
          (is_plan_of s.session_id)
          (update_first (is_requested plan.refresh_plan_id s.session_id) f db.refresh_plans)
        ≡ f plan ∷ []
  plans_after f kept =
      let hit : is_requested plan.refresh_plan_id s.session_id plan ≡ true =
        ground (arith, beq_refl plan.refresh_plan_id, k.requested) in
      let own : is_plan_of s.session_id plan ≡ true = and_right _ _ hit in
      filter-update_first_within (is_plan_of s.session_id)
        (is_requested plan.refresh_plan_id s.session_id) f plan (λ y r. and_right _ _ r) hit
        (rw kept own) db.refresh_plans k.plan_alone

  -- The Session, after an update that keeps its identifier.
  pub sessions_after :
      (g : EpochSession → EpochSession)
      → (g s).session_id ≡ s.session_id
      → filter (is_session session_id) (update_first (is_session s.session_id) g db.sessions)
        ≡ g s ∷ []
  sessions_after g kept =
      ap (λ i. filter (is_session session_id) (update_first (is_session i) g db.sessions))
        named_session
      ∙ filter-update_first_single (is_session session_id) g s
          ((string_eq.beq_iff (g s).session_id session_id).1 (kept ∙ named_session)) db.sessions
          k.session
