-- ===== src/Refresh/Agreed.antt =====
-- What `planStillMatches` and the guard against reused identifiers of `claimRefreshPlan` in
-- apps/server/src/epochguard/refresh-planner.ts have established.
use epochguard.Prelude.{
  String, Bool, ◌≡◌, refl, inl, inr, true, false, none, List, [], ◌∷◌, ◌||◌, arith, ◌==◌, string_eq,
  nat_eq, option_eq, filter, any, ok, Result-cases, eq_of_beq, none_of_is_null, filter_of_any,
  and_left, and_right,
}
use epochguard.Platform.{Platform}
use epochguard.Contract.RecordStates.{RefreshPlanState, plan_state_eq}
use epochguard.Contract.Records.{RunAssignment, AgentAttempt, EpochSession}
use epochguard.Contract.Database.{RefreshPlan, EpochDatabase}
use epochguard.Refresh.{RefreshPorts, same_ordered_ids}
use epochguard.Refresh.Claim.{plans_agree, plan_still_matches, ids_reused}
use epochguard.Refresh.Plan.{build_refresh_plan}

same_ordered_ids-eq : (ids others : List String) → same_ordered_ids ids others ≡ true → ids ≡ others
unfolding same_ordered_ids
same_ordered_ids-eq [] [] h = refl
same_ordered_ids-eq [] (b ∷ bs) h = cc
same_ordered_ids-eq (a ∷ more) [] h = cc
same_ordered_ids-eq (a ∷ more) (b ∷ bs) h =
    let first = eq_of_beq a b (and_left (a == b) (same_ordered_ids more bs) h) in
    let rest = same_ordered_ids-eq more bs (and_right (a == b) (same_ordered_ids more bs) h) in
    rw (first, rest) refl

module _ (p : Platform) (ports : RefreshPorts) (db : EpochDatabase) where
  -- A plan that may be claimed agrees with the one that the planner builds from the database.
  pub record IsRebuilt (s : EpochSession) (plan built : RefreshPlan) : Type 0 where
    pub available : plan.status ≡ RefreshPlanState.available
    pub unclaimed : plan.claimed_attempt_id ≡ none
    pub rebuilt : build_refresh_plan p ports db plan.refresh_plan_id s.session_id ≡ ok built
    pub session : plan.session_id ≡ built.session_id
    pub revision : plan.base_session_revision ≡ built.base_session_revision
    pub head : plan.validated_head ≡ built.validated_head
    pub dependencies : plan.dependency_set_hash ≡ built.dependency_set_hash
    pub decisions : plan.active_decision_certificate_ids ≡ built.active_decision_certificate_ids
    pub agents : plan.agent_ids ≡ built.agent_ids
    pub agree : plans_agree plan built ≡ true

  pub plan_still_matches-IsRebuilt :
      (s : EpochSession) (plan : RefreshPlan)
      → plan_still_matches p db ports s plan ≡ true
      → (built : RefreshPlan) × IsRebuilt s plan built
  unfolding plan_still_matches
  plan_still_matches-IsRebuilt s plan h =
      elim (Result-cases (build_refresh_plan p ports db plan.refresh_plan_id s.session_id)) [
        | inr (_, e) ↦ absurd (ground arith)
        | inl (built, e) ↦ (
          built,
          record {
            available = eq_of_beq plan.status RefreshPlanState.available (ground arith);
            unclaimed = none_of_is_null plan.claimed_attempt_id (ground arith);
            rebuilt = e;
            session = eq_of_beq plan.session_id built.session_id (ground arith);
            revision =
                eq_of_beq plan.base_session_revision built.base_session_revision (ground arith);
            head = eq_of_beq plan.validated_head built.validated_head (ground arith);
            dependencies =
                eq_of_beq plan.dependency_set_hash built.dependency_set_hash (ground arith);
            decisions = same_ordered_ids-eq _ built.active_decision_certificate_ids (ground arith);
            agents = same_ordered_ids-eq _ built.agent_ids (ground arith);
            agree = ground arith;
          },
        )
      ]

  -- No record has an identifier of the new Assignment or the new Attempt.
  pub record IsFresh (a : RunAssignment) (t : AgentAttempt) : Type 0 where
    pub assignment : filter (λ c. c.assignment_id == a.assignment_id) db.run_assignments ≡ []
    pub planned_receipt : filter (λ c. c.receipt_id == a.receipt_id) db.run_assignments ≡ []
    pub receipt : filter (λ c. c.receipt_id == a.receipt_id) db.receipts ≡ []
    pub attempt : filter (λ c. c.attempt_id == t.attempt_id) db.attempts ≡ []

  any_either :
      {A : Type 0} (q r : A → Bool) (xs : List A)
      → any (λ x. q x || r x) xs ≡ false
      → (filter q xs ≡ []) × (filter r xs ≡ [])
  any_either q r [] h = (refl, refl)
  any_either q r (x ∷ xs) h =
      let (qs, rs) = any_either q r xs (ground arith) in (ground arith, ground arith)

  pub ids_reused-IsFresh :
      (a : RunAssignment) (t : AgentAttempt) → ids_reused p db a t ≡ false → IsFresh a t
  unfolding ids_reused
  ids_reused-IsFresh a t h =
      let (assignment, planned) =
        any_either (λ c. c.assignment_id == a.assignment_id) (λ c. c.receipt_id == a.receipt_id)
          db.run_assignments (ground arith) in
      record {
        assignment = assignment;
        planned_receipt = planned;
        receipt = filter_of_any (λ c. c.receipt_id == a.receipt_id) db.receipts (ground arith);
        attempt = filter_of_any (λ c. c.attempt_id == t.attempt_id) db.attempts (ground arith);
      }
