-- ===== src/Refresh/Once.antt =====
-- A plan is claimed once, and only while it is warranted: the guarantees of the mutation of
-- `claimRefreshPlan` in apps/server/src/epochguard/refresh-planner.ts.
use epochguard.Prelude.{
  String, ◌+◌, ◌==◌, some, ◌≡◌, ◌≢◌, ◌∙◌, sym, refl, ap, inl, true, false, List, [], ◌∷◌, ◌++◌,
  arith, string_eq, nat_eq, filter, ok, Member-filter, eq_of_beq,
}
use epochguard.Platform.{Platform}
use epochguard.Contract.States.{Role, SessionState}
use epochguard.Contract.Records.{RunAssignment, AgentAttempt, EpochSession, with_role_id}
use epochguard.Contract.RecordStates.{RefreshPlanState}
use epochguard.Contract.Database.{RefreshPlan, EpochDatabase}
use epochguard.Refresh.{RefreshClaimArtifacts, ClaimRefreshPlanResult, claimed, RefreshPorts}
use epochguard.Refresh.Claim.{RefreshSessionRequest, plan_still_matches, ids_reused}
use epochguard.Refresh.Request.{
  is_session, is_plan_of, claimed_plan, write_claim, invalidate, claim_mutation,
  reobserving_session,
}
use epochguard.Refresh.Outcome.{
  Addressed, took, dropped, addressed, claim_plan-Outcome, claim_plan-claimed,
}
use epochguard.Refresh.Written.{named_plan, plans_after, sessions_after}
use epochguard.Refresh.Agreed.{IsRebuilt, IsFresh, plan_still_matches-IsRebuilt, ids_reused-IsFresh}
use epochguard.Refresh.Stale.{IsWarranted, build_refresh_plan-IsWarranted}

module _ (p : Platform) (ports : RefreshPorts) (now : String) (db : EpochDatabase)
    (request : RefreshSessionRequest) (session_id : String) where
  -- What a claim has found, and the database that it leaves.
  pub record Claimed (role : Role) (agent : String) (plan' : RefreshPlan) (a : RunAssignment)
      (t : AgentAttempt) (db' : EpochDatabase) : Type 0 where
    pub session : EpochSession
    pub plan : RefreshPlan
    pub addressed : Addressed p ports now db request session_id session plan
    pub revision : request.expected_session_revision ≡ session.session_revision
    pub active : session.active_refresh_plan_id ≡ some plan.refresh_plan_id
    pub matches : plan_still_matches p db ports session plan ≡ true
    pub owner : agent ≡ session.frozen_assignments.budget_agent_id
    pub fresh : ids_reused p db a t ≡ false
    pub written :
        (claimed role agent plan' a t, db')
        ≡ write_claim p ports now db request session plan role agent
            (record { assignment = a; attempt = t })

  pub claim_mutation-Claimed :
      (role : Role) (agent : String) (plan' : RefreshPlan) (a : RunAssignment) (t : AgentAttempt)
      (db' : EpochDatabase)
      → claim_mutation p ports now db request session_id ≡ ok (claimed role agent plan' a t, db')
      → Claimed role agent plan' a t db'
  unfolding invalidate
  claim_mutation-Claimed role agent plan' a t db' h =
      let (s, plan, found, claims) = addressed p ports now db request session_id _ h in
      let (revision, outcome) = claim_plan-Outcome p ports now db request s plan _ claims in
      elim outcome [
        | dropped e ↦ absurd (not_invalidated s plan e)
        | took role' agent' made e matches active of_role owner idle fresh ↦
            let (same_role, same_agent, same_assignment, same_attempt) =
              parts s plan role' agent' made e in
            let offered : RefreshClaimArtifacts = record { assignment = a; attempt = t } in
            let same : offered ≡ made = ground arith in
            record {
              session = s;
              plan = plan;
              addressed = found;
              revision = revision;
              active = active;
              matches = matches;
              owner = same_agent ∙ owner;
              fresh = rw (same_assignment, same_attempt) fresh;
              written =
                  e
                  ∙ sym (
                      ap (λ r. write_claim p ports now db request s plan r agent offered) same_role
                      ∙ ap (λ g. write_claim p ports now db request s plan role' g offered)
                          same_agent
                      ∙ ap (write_claim p ports now db request s plan role' agent') same);
            }
      ]
    where
      not_invalidated :
          (s : EpochSession) (plan : RefreshPlan)
          → (claimed role agent plan' a t, db') ≢ invalidate p ports now db request s plan
      not_invalidated s plan e = let told = ap (λ x. x.0) e in cc

      parts :
          (s : EpochSession) (plan : RefreshPlan) (role' : Role) (agent' : String)
          (made : RefreshClaimArtifacts)
          → (claimed role agent plan' a t, db')
            ≡ write_claim p ports now db request s plan role' agent' made
          → (role ≡ role') × (agent ≡ agent') × (a ≡ made.assignment) × (t ≡ made.attempt)
      parts s plan role' agent' made e =
          let told = ap (λ x. x.0) e in (ground arith, ground arith, ground arith, ground arith)

  after-plan :
      {role : Role} {agent : String} {plan' : RefreshPlan} {a : RunAssignment} {t : AgentAttempt}
      {db' : EpochDatabase} (k : Claimed role agent plan' a t db')
      → filter (is_plan_of k.session.session_id) db'.refresh_plans
        ≡ claimed_plan t.attempt_id k.plan ∷ []
  after-plan k =
      ap (λ x. filter (is_plan_of k.session.session_id) x.1.refresh_plans) k.written
      ∙ plans_after p ports now db request session_id k.session k.plan k.addressed (claimed_plan _)
          refl

  -- A plan is claimed at most once: after a claim, every later request for the Session, whatever
  -- plan and revision it names and whatever its ports and its time, leaves the database that the
  -- claim left without a write: the mutation throws, and neither claims nor invalidates.
  pub claim_once :
      (role : Role) (agent : String) (plan' : RefreshPlan) (a : RunAssignment) (t : AgentAttempt)
      (db' : EpochDatabase)
      → claim_mutation p ports now db request session_id ≡ ok (claimed role agent plan' a t, db')
      → (ports' : RefreshPorts) (now' : String) (request' : RefreshSessionRequest)
        (x : ClaimRefreshPlanResult × EpochDatabase)
      → claim_mutation p ports' now' db' request' session_id ≢ ok x
  claim_once role agent plan' a t db' h ports' now' request' x again =
      let k = claim_mutation-Claimed role agent plan' a t db' h in
      let (s', next, found, claims) = addressed p ports' now' db' request' session_id x again in
      let session_named = selected_id db.sessions k.session k.addressed.session in
      let session_named' = selected_id db'.sessions s' found.session in
      let same_session : k.session.session_id ≡ s'.session_id =
        session_named ∙ sym session_named' in
      let listed : next ∷ [] ≡ claimed_plan t.attempt_id k.plan ∷ [] =
        sym found.plan_alone ∙ rw (← same_session) (after-plan k) in
      let same : next ≡ claimed_plan t.attempt_id k.plan = ground arith in
      claim_plan-claimed p ports' now' db' request' s' next x (rw same refl) claims
    where
      selected_id :
          (ss : List EpochSession) (s : EpochSession)
          → filter (is_session session_id) ss ≡ s ∷ []
          → s.session_id ≡ session_id
      selected_id ss s e =
          let (_, named) = Member-filter (is_session session_id) s ss (rw e (inl refl)) in
          eq_of_beq s.session_id session_id named

  -- What a claim has found, and what it leaves.
  pub record IsClaim (role : Role) (agent : String) (plan' : RefreshPlan) (a : RunAssignment)
      (t : AgentAttempt) (db' : EpochDatabase) : Type 0 where
    pub session : EpochSession
    pub plan : RefreshPlan
    pub built : RefreshPlan
    pub only_session : filter (λ c. c.session_id == session_id) db.sessions ≡ session ∷ []
    pub only_plan : filter (λ c. c.session_id == session.session_id) db.refresh_plans ≡ plan ∷ []
    pub requested : plan.refresh_plan_id ≡ request.refresh_plan_id
    pub revision : request.expected_session_revision ≡ session.session_revision
    pub active : session.active_refresh_plan_id ≡ some plan.refresh_plan_id
    pub rebuilt : IsRebuilt p ports db session plan built
    pub warranted : IsWarranted p ports db session.session_id built
    pub owner : agent ≡ session.frozen_assignments.budget_agent_id
    pub fresh : IsFresh p ports db a t
    pub told :
        plan'
        ≡ record plan { status = RefreshPlanState.claimed; claimed_attempt_id = some t.attempt_id }
    pub plans : filter (λ c. c.session_id == session.session_id) db'.refresh_plans ≡ plan' ∷ []
    pub sessions :
        filter (λ c. c.session_id == session_id) db'.sessions
        ≡ record session {
          active_attempt_ids = with_role_id role (some t.attempt_id) session.active_attempt_ids;
          state = SessionState.reobserving;
          session_revision = session.session_revision + 1;
          state_updated_at = now;
        }
          ∷ []
    pub assignments : db'.run_assignments ≡ db.run_assignments ++ a ∷ []
    pub attempts : db'.attempts ≡ db.attempts ++ t ∷ []

  -- A claim is warranted by the database that it finds. Its Session is the only one of its id, at the
  -- revision that the request names; the plan is the Session's only one, the one that the request
  -- names and the Session is bound to, AVAILABLE and unclaimed; and the planner, run on the database,
  -- builds a plan with the same revision, head, dependencies, Decisions and agents, so the Budget
  -- agent, whom the claim asks, is the one agent whose interval misses the head. After the claim the
  -- plan is CLAIMED by the Attempt, the Session is REOBSERVING with that Attempt at the next revision,
  -- and one Assignment and one Attempt are added, none of whose identifiers was in use.
  pub claim_mutation-IsWarranted :
      (role : Role) (agent : String) (plan' : RefreshPlan) (a : RunAssignment) (t : AgentAttempt)
      (db' : EpochDatabase)
      → claim_mutation p ports now db request session_id ≡ ok (claimed role agent plan' a t, db')
      → IsClaim role agent plan' a t db'
  claim_mutation-IsWarranted role agent plan' a t db' h =
      let k = claim_mutation-Claimed role agent plan' a t db' h in
      let (built, rebuilt) = plan_still_matches-IsRebuilt p ports db k.session k.plan k.matches in
      let same = told k.plan k.session (ap (λ x. x.0) k.written) in
      record {
        session = k.session;
        plan = k.plan;
        built = built;
        only_session = k.addressed.session;
        only_plan = k.addressed.plan_alone;
        requested = named_plan p ports now db request session_id k.session k.plan k.addressed;
        revision = k.revision;
        active = k.active;
        rebuilt = rebuilt;
        warranted =
            build_refresh_plan-IsWarranted p ports db k.plan.refresh_plan_id k.session.session_id
              built rebuilt.rebuilt;
        owner = k.owner;
        fresh = ids_reused-IsFresh p ports db a t k.fresh;
        told = same;
        plans = after-plan k ∙ ap (λ x. x ∷ []) (sym same);
        sessions =
            ap (λ x. filter (is_session session_id) x.1.sessions) k.written
            ∙ sessions_after p ports now db request session_id k.session k.plan k.addressed
                (reobserving_session p ports now db request role t.attempt_id) refl;
        assignments = ap (λ x. x.1.run_assignments) k.written;
        attempts = ap (λ x. x.1.attempts) k.written;
      }
    where
      told :
          (plan : RefreshPlan) (s : EpochSession)
          → claimed role agent plan' a t ≡ claimed role agent (claimed_plan t.attempt_id plan) a t
          → plan' ≡ claimed_plan t.attempt_id plan
      told plan s e = ground arith
