-- ===== src/Refresh/Stale.antt =====
-- The guarantee of `buildRefreshPlan` of apps/server/src/epochguard/refresh-planner.ts.
use epochguard.Prelude.{
  ℕ, String, ◌≡◌, ◌≢◌, ◌≤◌, refl, sym, ◌∙◌, ap, inl, inr, true, false, none, some, List, [], ◌∷◌,
  map, ◌==◌, string_eq, filter, single, ok, Bool-cases, Member, ◌<◌, Option-cases, option_eq, arith,
}
use epochguard.Platform.{Platform}
use epochguard.Contract.States.{Role, roles, SessionState, role_eq}
use epochguard.Contract.Json.{receipt_set_hash}
use epochguard.Validator.{effective_end}
use epochguard.Validator.Outcome.{list_max, list_min}
use epochguard.Contract.RecordStates.{RefreshPlanState}
use epochguard.Contract.Records.{EpochSession}
use epochguard.Contract.Database.{
  DecisionIds, decision_id_list, ValidationRecord, RefreshPlan, EpochDatabase,
}
use epochguard.Contract.EvidenceSchemas.{plan_schema}
use epochguard.Refresh.{RefreshEvidenceInterval, RefreshPorts}
use epochguard.Refresh.Owners.{interval_contains, refresh_set}
use epochguard.Refresh.Plan.{build_refresh_plan}
use epochguard.Refresh.Gather.{PlanEvidence, latest_start, earliest_end}
use epochguard.Refresh.Excluded.{refresh_set-Member, refresh_set_facts, one_interval}
use epochguard.Refresh.Evidence.{IsEvidence, plan_evidence-IsEvidenceOfAll}
use epochguard.Refresh.Warrant.{
  IsConflictOf, build_refresh_plan-Built, owner_facts, proof_facts, check_validation-IsConflictOf,
  check_session-blocked,
}

module _ (head : ℕ) (evidence : List RefreshEvidenceInterval) (ids : List String)
    (h : refresh_set head evidence ≡ ok ids) where
  -- If one agent alone is selected, its interval misses the head.
  only_misses :
      (b : RefreshEvidenceInterval)
      → Member b evidence
      → ids ≡ b.agent_id ∷ []
      → interval_contains head b ≡ false
  only_misses b m only = ((refresh_set-Member head evidence ids h).0 b m).0 (rw only (inl refl))

  -- Every other interval contains it.
  others_contain :
      (b i : RefreshEvidenceInterval)
      → Member b evidence
      → Member i evidence
      → ids ≡ b.agent_id ∷ []
      → i ≢ b
      → interval_contains head i ≡ true
  others_contain b i m n only apart = elim (Bool-cases (interval_contains head i)) [
    | inl held ↦ held
    | inr missed ↦ elim (rw only at (((refresh_set-Member head evidence ids h).0 i n).1 missed)) [
      | inl same ↦ absurd (
          apart (
            one_interval roles [] evidence i b ((refresh_set_facts head evidence ids h).1) n m
              same))
      | inr more ↦ absurd more
    ]
  ]

roles_apart :
    (r : Role) (e b : PlanEvidence)
    → e.interval.role ≡ r
    → b.interval.role ≡ Role.budget
    → (r == Role.budget) ≡ false
    → e.interval ≢ b.interval
roles_apart r e b of_r of_budget other same =
    let names : e.interval.role ≡ b.interval.role = ap (λ i. i.role) same in
    let alike : r ≡ Role.budget = sym of_r ∙ names ∙ of_budget in
    let equal = (role_eq.beq_iff r Role.budget).1 alike in cc

-- A sequence of an interval, by the head, lies before the interval's end there.
contains-lt-end :
    (head seq : ℕ) (e : PlanEvidence)
    → seq ≤ head
    → interval_contains seq e.interval ≡ true
    → (e.interval.from ≤ seq) × (seq < effective_end head e.interval.until)
contains-lt-end head seq e by_head held = elim (Option-cases e.interval.until) [
  | inl ends ↦ ground arith
  | inr (u, ends) ↦ ground arith
]

-- Where the earliest end is not after the latest start, no sequence lies in all intervals.
no_common_of :
    (head seq : ℕ) (i b q : PlanEvidence)
    → earliest_end head (i ∷ b ∷ q ∷ []) ≤ latest_start (i ∷ b ∷ q ∷ [])
    → (i.interval.from ≤ seq) × (seq < effective_end head i.interval.until)
    → (b.interval.from ≤ seq) × (seq < effective_end head b.interval.until)
    → (q.interval.from ≤ seq) × (seq < effective_end head q.interval.until)
    → ⊥
unfolding earliest_end latest_start list_max list_min
no_common_of head seq i b q crossed (i_from, i_until) (b_from, b_until) (q_from, q_until) =
    absurd (omega (arith, crossed, i_from, i_until, b_from, b_until, q_from, q_until))

module _ (p : Platform) (ports : RefreshPorts) (db : EpochDatabase) where
  -- What warrants a plan: the Session is blocked by its own Validation, which found a conflict at the
  -- head; its three active Decisions, their Receipts and versions, whose intervals have no sequence
  -- in common up to the head, and of which the Budget agent's alone misses the head.
  pub record IsWarranted (session_id : String) (plan : RefreshPlan) : Type 0 where
    pub session : EpochSession
    pub validation : ValidationRecord
    pub ids : DecisionIds
    pub inventory : PlanEvidence
    pub budget : PlanEvidence
    pub policy : PlanEvidence
    pub unique : single (filter (λ c. c.session_id == session_id) db.sessions) ≡ some session
    pub blocked : session.state ≡ SessionState.blocked_no_cut
    pub validated :
        single (filter (λ c. some c.validation_id == session.active_validation_id) db.validations)
        ≡ some validation
    pub conflict_of : IsConflictOf p ports db session validation ids
    pub of_inventory :
        IsEvidence p ports db session validation Role.inventory ids.inventory inventory
    pub of_budget : IsEvidence p ports db session validation Role.budget ids.budget budget
    pub of_policy : IsEvidence p ports db session validation Role.policy ids.policy policy
    pub conflict :
        earliest_end db.head_seq (inventory ∷ budget ∷ policy ∷ [])
        ≤ latest_start (inventory ∷ budget ∷ policy ∷ [])
    pub no_common :
        (seq : ℕ)
        → seq ≤ db.head_seq
        → interval_contains seq inventory.interval ≡ true
        → interval_contains seq budget.interval ≡ true
        → interval_contains seq policy.interval ≡ true
        → ⊥
    pub dependencies :
        receipt_set_hash p (inventory.receipt_id ∷ budget.receipt_id ∷ policy.receipt_id ∷ [])
        ≡ validation.dependency_set_hash
    pub of_dependencies : plan.dependency_set_hash ≡ validation.dependency_set_hash
    pub of_decisions : plan.active_decision_certificate_ids ≡ decision_id_list ids
    pub inventory_holds : interval_contains db.head_seq inventory.interval ≡ true
    pub budget_misses : interval_contains db.head_seq budget.interval ≡ false
    pub policy_holds : interval_contains db.head_seq policy.interval ≡ true
    pub asked : plan.agent_ids ≡ session.frozen_assignments.budget_agent_id ∷ []
    pub at_head : plan.validated_head ≡ db.head_seq
    pub of_session : plan.session_id ≡ session.session_id
    pub of_revision : plan.base_session_revision ≡ session.session_revision
    pub available : plan.status ≡ RefreshPlanState.available
    pub unclaimed : plan.claimed_attempt_id ≡ none
    pub valid : plan_schema p plan ≡ true

  -- A plan that buildRefreshPlan returns is warranted. The Session, the only one of its id, is
  -- BLOCKED_NO_CUT, and its Validation is the only one of its id, of the Session and the Action, and
  -- found no common cut at the current head. For each role the active Decision is an ACTIVE one of
  -- the Session, the Action and the frozen agent, its Receipt is the only one of its id and has the
  -- same bindings, and the version is what the resolver answers for it, with the Receipt's revision
  -- and hash. No sequence up to the head lies in the intervals of all three; the Budget agent's
  -- misses the head and the two others contain it. The plan, open and unclaimed, has the Validation's
  -- dependencies and the Decisions, and asks the Budget agent alone to observe again, for the Session
  -- at its revision.
  pub build_refresh_plan-IsWarranted :
      (plan_id session_id : String) (plan : RefreshPlan)
      → build_refresh_plan p ports db plan_id session_id ≡ ok plan
      → IsWarranted session_id plan
  build_refresh_plan-IsWarranted plan_id session_id plan h =
      let k = build_refresh_plan-Built p ports db plan_id session_id plan h in
      let all =
        plan_evidence-IsEvidenceOfAll p ports db k.session k.validation k.ids k.evidence k.found in
      let conflict_of =
        check_validation-IsConflictOf p ports db k.session plan_id k.validation k.ids k.bound in
      let head = conflict_of.at_head in
      let conflict =
        proof_facts p ports db k.session k.validation k.ids k.evidence k.proof k.proved in
      let (selected, only) =
        owner_facts p ports db k.session k.validation k.evidence k.proof k.agents k.owned in
      let computed : refresh_set db.head_seq
            (all.inventory.interval ∷ all.budget.interval ∷ all.policy.interval ∷ [])
          ≡ ok k.agents =
        rw (← head) (rw (← ap (map (λ e. e.interval)) all.all) selected) in
      let alone : k.agents ≡ all.budget.interval.agent_id ∷ [] = rw all.of_budget.owned only in
      let evidence = all.inventory.interval ∷ all.budget.interval ∷ all.policy.interval ∷ [] in
      let misses =
        only_misses db.head_seq evidence k.agents computed all.budget.interval (inr (inl refl))
          alone in
      let contain = others_contain db.head_seq evidence k.agents computed all.budget.interval in
      let crossed : earliest_end db.head_seq (all.inventory ∷ all.budget ∷ all.policy ∷ [])
          ≤ latest_start (all.inventory ∷ all.budget ∷ all.policy ∷ []) =
        rw (← head) (rw (← all.all) conflict) in
      record {
        session = k.session;
        validation = k.validation;
        ids = k.ids;
        blocked = check_session-blocked p ports db k.session k.admitted;
        validated = k.active;
        conflict_of = conflict_of;
        no_common = λ seq by_head i b q.
            no_common_of db.head_seq seq all.inventory all.budget all.policy crossed
              (contains-lt-end db.head_seq seq all.inventory by_head i)
              (contains-lt-end db.head_seq seq all.budget by_head b)
              (contains-lt-end db.head_seq seq all.policy by_head q);
        dependencies = rw all.all at all.dependencies;
        of_dependencies = rw k.made all.dependencies;
        of_decisions = rw k.made refl;
        inventory = all.inventory;
        budget = all.budget;
        policy = all.policy;
        unique = k.unique;
        of_inventory = all.of_inventory;
        of_budget = all.of_budget;
        of_policy = all.of_policy;
        conflict = crossed;
        inventory_holds = contain all.inventory.interval (inr (inl refl)) (inl refl) alone (
            roles_apart Role.inventory all.inventory all.budget all.of_inventory.of_role
              all.of_budget.of_role refl);
        budget_misses = misses;
        policy_holds = contain all.policy.interval (inr (inl refl)) (inr (inr (inl refl))) alone (
            roles_apart Role.policy all.policy all.budget all.of_policy.of_role
              all.of_budget.of_role refl);
        asked = rw k.made only;
        at_head = rw k.made head;
        of_session = rw k.made refl;
        of_revision = rw k.made refl;
        available = rw k.made refl;
        unclaimed = rw k.made refl;
        valid = k.valid;
      }
