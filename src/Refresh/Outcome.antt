-- ===== src/Refresh/Outcome.antt =====
-- What the mutation of `claimRefreshPlan` in apps/server/src/epochguard/refresh-planner.ts has
-- found and written when it returns.
use epochguard.Prelude.{
  String, ◌≡◌, ◌≢◌, refl, inl, inr, true, false, none, some, List, [], ◌∷◌, arith, ◌==◌, ◌!=◌,
  string_eq, nat_eq, option_eq, filter, length, is_null, ok, Result-cases, Option-cases, Bool-cases,
  eq_of_bne, Member-filter, single_of_Member, none_of_is_null,
}
use epochguard.Platform.{Platform}
use epochguard.Contract.States.{Role}
use epochguard.Contract.RecordStates.{RefreshPlanState, plan_state_eq}
use epochguard.Contract.Action.{RoleQuerySpec, build_role_query_spec}
use epochguard.Contract.Records.{EpochSession, role_id}
use epochguard.Contract.Database.{RefreshPlan, EpochDatabase}
use epochguard.Refresh.{
  RefreshClaimArtifacts, RefreshClaimArtifactContext, ClaimRefreshPlanResult, RefreshPorts,
  Invariant, PlannerError,
}
use epochguard.Refresh.Owners.{role_for_agent, require_budget_owner}
use epochguard.Refresh.Claim.{
  RefreshSessionRequest, plan_still_matches, ids_reused, assert_claim_artifacts,
}
use epochguard.Refresh.Closure.{assert_claimed_closure}
use epochguard.Refresh.Warrant.{require_budget_owner-eq}
use epochguard.Refresh.Request.{
  exactly_one, is_session, is_plan_of, is_requested, abort_stale, answer_claimed, invalidate,
  write_claim, take_plan, is_outdated, claim_available, is_closed, claim_owned, claim_open,
  claim_plan, claim_mutation,
}

exactly_one-eq :
    {A : Type 0} (absent several : Invariant) (xs : List A) (x : A)
    → exactly_one absent several xs ≡ ok x
    → xs ≡ x ∷ []
exactly_one-eq absent several [] x h = cc
exactly_one-eq absent several (y ∷ []) x h = ground arith
exactly_one-eq absent several (y ∷ z ∷ ys) x h = cc

module _ (p : Platform) (ports : RefreshPorts) (now : String) (db : EpochDatabase)
    (request : RefreshSessionRequest) where
  -- The Session and its one plan, of which the request speaks.
  pub record Addressed (session_id : String) (s : EpochSession) (plan : RefreshPlan) : Type 0 where
    pub session : filter (is_session session_id) db.sessions ≡ s ∷ []
    pub plan_alone : filter (is_plan_of s.session_id) db.refresh_plans ≡ plan ∷ []
    pub requested : is_requested request.refresh_plan_id s.session_id plan ≡ true

  -- How the mutation returns: it claims the plan, or it invalidates it.
  pub data Outcome (s : EpochSession) (plan : RefreshPlan)
      (x : ClaimRefreshPlanResult × EpochDatabase) : Type 0 where
    took :
        (role : Role) (agent : String) (made : RefreshClaimArtifacts)
        → x ≡ write_claim p ports now db request s plan role agent made
        → plan_still_matches p db ports s plan ≡ true
        → s.active_refresh_plan_id ≡ some plan.refresh_plan_id
        → role_for_agent s agent ≡ ok role
        → agent ≡ s.frozen_assignments.budget_agent_id
        → role_id s.active_attempt_ids role ≡ none
        → ids_reused p db made.assignment made.attempt ≡ false
        → Outcome s plan x
    dropped : x ≡ invalidate p ports now db request s plan → Outcome s plan x

  abort_stale-never :
      (s : EpochSession) (x : ClaimRefreshPlanResult × EpochDatabase)
      → abort_stale p ports now db request s ≢ ok x
  unfolding abort_stale
  abort_stale-never s x h = ground arith

  answer_claimed-never :
      (s : EpochSession) (plan : RefreshPlan) (agent : String)
      (x : ClaimRefreshPlanResult × EpochDatabase)
      → answer_claimed p ports now db request s plan agent ≢ ok x
  unfolding answer_claimed
  answer_claimed-never s plan agent x h =
      elim (Result-cases (assert_claimed_closure p db ports s plan agent)) [
        | inr (_, e) ↦ absurd (ground arith)
        | inl (t, e) ↦ absurd (ground arith)
      ]

  pub addressed :
      (session_id : String) (x : ClaimRefreshPlanResult × EpochDatabase)
      → claim_mutation p ports now db request session_id ≡ ok x
      → (s : EpochSession) × (plan : RefreshPlan) × Addressed session_id s plan
        × (claim_plan p ports now db request s plan ≡ ok x)
  unfolding claim_mutation
  addressed session_id x h =
      elim (Result-cases (
        exactly_one Invariant.session_missing Invariant.session_unique
          (filter (is_session session_id) db.sessions))) [
            | inr (_, e) ↦ absurd (ground arith)
            | inl (s, unique) ↦
                elim (Result-cases (
                  exactly_one Invariant.plan_missing Invariant.plan_unique (
                    filter (is_requested request.refresh_plan_id s.session_id)
                      (filter (is_plan_of s.session_id) db.refresh_plans)))) [
                        | inr (_, e) ↦ absurd (ground arith)
                        | inl (plan, found) ↦
                            let (alone, claims) = found_facts s plan unique found in
                            let listed =
                              exactly_one-eq Invariant.plan_missing Invariant.plan_unique
                                (filter (is_requested request.refresh_plan_id s.session_id)
                                  (filter (is_plan_of s.session_id) db.refresh_plans))
                                plan found in
                            let (member, requested) =
                              Member-filter (is_requested request.refresh_plan_id s.session_id) plan
                                (filter (is_plan_of s.session_id) db.refresh_plans)
                                (rw listed (inl refl)) in
                            (
                              s,
                              plan,
                              record {
                                session =
                                    exactly_one-eq Invariant.session_missing
                                      Invariant.session_unique _ s unique;
                                plan_alone =
                                    single_of_Member
                                      (filter (is_plan_of s.session_id) db.refresh_plans) plan
                                      (eq_of_bne _ 1 alone) member;
                                requested = requested;
                              },
                              claims,
                            )
                      ]
          ]
    where
      found_facts :
          (s : EpochSession) (plan : RefreshPlan)
          → exactly_one Invariant.session_missing Invariant.session_unique
              (filter (is_session session_id) db.sessions)
            ≡ ok s
          → exactly_one Invariant.plan_missing Invariant.plan_unique (
              filter
                (is_requested request.refresh_plan_id s.session_id)
                (filter (is_plan_of s.session_id) db.refresh_plans))
            ≡ ok plan
          → ((length (filter (is_plan_of s.session_id) db.refresh_plans) != 1) ≡ false)
            × (claim_plan p ports now db request s plan ≡ ok x)
      found_facts s plan unique found = (ground arith, ground arith)

  artifacts_facts :
      (s : EpochSession) (role : Role) (agent : String) (offered made : RefreshClaimArtifacts)
      → assert_claim_artifacts p db s role agent offered ≡ ok made
      → ids_reused p db made.assignment made.attempt ≡ false
  unfolding assert_claim_artifacts
  artifacts_facts s role agent offered made h =
      elim (Result-cases (build_role_query_spec p PlannerError.malformed s.action role)) [
        | inr (_, e) ↦ absurd (ground arith)
        | inl (q, e) ↦ let (same, fresh) = found q e in rw (← same) fresh
      ]
    where
      found :
          (q : RoleQuerySpec)
          → build_role_query_spec p PlannerError.malformed s.action role ≡ ok q
          → (offered ≡ made) × (ids_reused p db offered.assignment offered.attempt ≡ false)
      found q e = ground arith

  fits_facts :
      (s : EpochSession) (plan : RefreshPlan)
      → is_outdated p ports now db request s plan ≡ false
      → (plan_still_matches p db ports s plan ≡ true)
        × (s.active_refresh_plan_id ≡ some plan.refresh_plan_id)
  fits_facts s plan h =
      (ground arith, eq_of_bne s.active_refresh_plan_id (some plan.refresh_plan_id) (ground arith))

  take_plan-Outcome :
      (s : EpochSession) (plan : RefreshPlan) (agent : String)
      (x : ClaimRefreshPlanResult × EpochDatabase)
      → is_outdated p ports now db request s plan ≡ false
      → agent ≡ s.frozen_assignments.budget_agent_id
      → take_plan p ports now db request s plan agent ≡ ok x
      → Outcome s plan x
  unfolding take_plan
  take_plan-Outcome s plan agent x fits owner h = elim (Result-cases (role_for_agent s agent)) [
    | inr (_, e) ↦ absurd (ground arith)
    | inl (role, of_role) ↦ elim (Option-cases (ports.create_artifacts (context role))) [
      | inl e ↦ absurd (ground arith)
      | inr (offered, e) ↦ elim (Result-cases (assert_claim_artifacts p db s role agent offered)) [
        | inr (_, failed) ↦ absurd (ground arith)
        | inl (made, fit) ↦
            let (written, idle) = facts role offered made of_role e fit in
            let (matches, active) = fits_facts s plan fits in
            took role agent made written matches active of_role owner (none_of_is_null _ idle)
              (artifacts_facts s role agent offered made fit)
      ]
    ]
  ]
    where
      context : Role → RefreshClaimArtifactContext
      context role = record { session = s; plan = plan; role = role; agent_id = agent }

      facts :
          (role : Role) (offered made : RefreshClaimArtifacts)
          → role_for_agent s agent ≡ ok role
          → ports.create_artifacts (context role) ≡ some offered
          → assert_claim_artifacts p db s role agent offered ≡ ok made
          → (x ≡ write_claim p ports now db request s plan role agent made)
            × (is_null (role_id s.active_attempt_ids role) ≡ true)
      facts role offered made of_role e fit = (ground arith, ground arith)

  claim_available-Outcome :
      (s : EpochSession) (plan : RefreshPlan) (agent : String)
      (x : ClaimRefreshPlanResult × EpochDatabase)
      → agent ≡ s.frozen_assignments.budget_agent_id
      → claim_available p ports now db request s plan agent ≡ ok x
      → (request.expected_session_revision ≡ s.session_revision) × Outcome s plan x
  unfolding claim_available
  claim_available-Outcome s plan agent x owner h =
      elim (Bool-cases (request.expected_session_revision != s.session_revision)) [
        | inl e ↦ absurd (abort_stale-never s x (rw e at h))
        | inr e ↦
            let open_now = rw e at h in
            (
              eq_of_bne request.expected_session_revision s.session_revision e,
              elim (Bool-cases (is_outdated p ports now db request s plan)) [
                | inl out ↦ dropped (ground arith)
                | inr fits ↦ take_plan-Outcome s plan agent x fits owner (ground arith)
              ],
            )
      ]

  -- A claim that returns has passed the compare-and-set on the Session's revision.
  pub claim_plan-Outcome :
      (s : EpochSession) (plan : RefreshPlan) (x : ClaimRefreshPlanResult × EpochDatabase)
      → claim_plan p ports now db request s plan ≡ ok x
      → (request.expected_session_revision ≡ s.session_revision) × Outcome s plan x
  unfolding claim_plan claim_open claim_owned
  claim_plan-Outcome s plan x h = elim (Bool-cases (is_closed p ports now db request plan)) [
    | inl closed ↦ absurd (abort_stale-never s x (ground arith))
    | inr still ↦ elim (Result-cases (require_budget_owner s plan.agent_ids)) [
      | inr (_, e) ↦ absurd (ground arith)
      | inl (agent, owned) ↦ elim (Bool-cases (plan.status == RefreshPlanState.claimed)) [
        | inl held ↦ absurd (answer_claimed-never s plan agent x (ground arith))
        | inr free ↦
            claim_available-Outcome s plan agent x
              ((require_budget_owner-eq s plan.agent_ids agent owned).1) (ground arith)
      ]
    ]
  ]

  -- A plan that is claimed already is never claimed or invalidated.
  pub claim_plan-claimed :
      (s : EpochSession) (plan : RefreshPlan) (x : ClaimRefreshPlanResult × EpochDatabase)
      → plan.status ≡ RefreshPlanState.claimed
      → claim_plan p ports now db request s plan ≢ ok x
  unfolding claim_plan claim_open claim_owned
  claim_plan-claimed s plan x held h = elim (Result-cases (require_budget_owner s plan.agent_ids)) [
    | inr (_, e) ↦ absurd (ground arith)
    | inl (agent, owned) ↦ absurd (answer_claimed-never s plan agent x (ground arith))
  ]
