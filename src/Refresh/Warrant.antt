-- ===== src/Refresh/Warrant.antt =====
-- What a plan that `buildRefreshPlan` of apps/server/src/epochguard/refresh-planner.ts returns
-- stands on.
use epochguard.Prelude.{
  String, ◌≡◌, ◌≤◌, sym, ◌∙◌, ap, inl, inr, true, false, some, List, [], ◌∷◌, map, arith, ◌==◌,
  string_eq, nat_eq, option_eq, filter, single, ok, Result-cases, Option-cases, eq_of_bne, ltb,
  ltb→ge,
}
use epochguard.Platform.{Platform}
use epochguard.Contract.States.{SessionState, session_state_eq}
use epochguard.Contract.RecordStates.{ValidationOutcome, outcome_eq}
use epochguard.Validator.{active_ids}
use epochguard.Contract.Records.{EpochSession}
use epochguard.Contract.Database.{
  DecisionIds, ValidationRecord, NoCutProof, RefreshPlan, EpochDatabase,
}
use epochguard.Contract.EvidenceSchemas.{plan_schema}
use epochguard.Refresh.{RefreshPorts}
use epochguard.Refresh.Owners.{refresh_set, require_budget_owner}
use epochguard.Refresh.Plan.{proof_open, plan_proof, plan_owners, new_plan, build_refresh_plan}
use epochguard.Refresh.Gather.{
  PlanEvidence, latest_start, earliest_end, check_session, check_validation, plan_evidence,
}

pub require_budget_owner-eq :
    (s : EpochSession) (ids : List String) (a : String)
    → require_budget_owner s ids ≡ ok a
    → (ids ≡ s.frozen_assignments.budget_agent_id ∷ []) × (a ≡ s.frozen_assignments.budget_agent_id)
unfolding require_budget_owner
require_budget_owner-eq s [] a h = cc
require_budget_owner-eq s (x ∷ []) a h =
    let same = eq_of_bne x s.frozen_assignments.budget_agent_id (ground arith) in
    let returned : x ≡ a = ground arith in (ap (λ y. y ∷ []) same, sym returned ∙ same)
require_budget_owner-eq s (x ∷ y ∷ is) a h = cc

module _ (p : Platform) (ports : RefreshPorts) (db : EpochDatabase) where
  -- The steps of buildRefreshPlan.
  pub record Built (plan_id session_id : String) (plan : RefreshPlan) : Type 0 where
    pub session : EpochSession
    pub validation : ValidationRecord
    pub ids : DecisionIds
    pub evidence : List PlanEvidence
    pub proof : NoCutProof
    pub agents : List String
    pub unique : single (filter (λ c. c.session_id == session_id) db.sessions) ≡ some session
    pub admitted : check_session p ports db session ≡ ok tt
    pub active :
        single (filter (λ c. some c.validation_id == session.active_validation_id) db.validations)
        ≡ some validation
    pub bound : check_validation p ports db session plan_id validation ≡ ok ids
    pub found : plan_evidence p ports db session validation ids ≡ ok evidence
    pub proved : plan_proof p ports db session validation ids evidence ≡ ok proof
    pub owned : plan_owners p ports db session validation evidence proof ≡ ok agents
    pub made : plan ≡ new_plan p ports db plan_id session validation ids evidence agents
    pub valid : plan_schema p plan ≡ true

  pub build_refresh_plan-Built :
      (plan_id session_id : String) (plan : RefreshPlan)
      → build_refresh_plan p ports db plan_id session_id ≡ ok plan
      → Built plan_id session_id plan
  unfolding build_refresh_plan
  build_refresh_plan-Built plan_id session_id plan h =
      elim (Option-cases (single (filter (λ c. c.session_id == session_id) db.sessions))) [
        | inl e ↦ absurd (ground arith)
        | inr (s, unique) ↦ elim (Result-cases (check_session p ports db s)) [
          | inr (_, e) ↦ absurd (ground arith)
          | inl (_, admitted) ↦
              elim (Option-cases (
                single
                  (filter (λ c. some c.validation_id == s.active_validation_id) db.validations))) [
                    | inl e ↦ absurd (ground arith)
                    | inr (v, active) ↦
                        elim (Result-cases (check_validation p ports db s plan_id v)) [
                          | inr (_, e) ↦ absurd (ground arith)
                          | inl (ids, bound) ↦
                              elim (Result-cases (plan_evidence p ports db s v ids)) [
                                | inr (_, e) ↦ absurd (ground arith)
                                | inl (es, found) ↦
                                    elim (Result-cases (plan_proof p ports db s v ids es)) [
                                      | inr (_, e) ↦ absurd (ground arith)
                                      | inl (n, proved) ↦
                                          elim (Result-cases (plan_owners p ports db s v es n)) [
                                            | inr (_, e) ↦ absurd (ground arith)
                                            | inl (agents, owned) ↦
                                                let (made, valid) =
                                                  finished s v ids es n agents unique admitted
                                                    active bound found proved owned in
                                                record {
                                                  session = s;
                                                  validation = v;
                                                  ids = ids;
                                                  evidence = es;
                                                  proof = n;
                                                  agents = agents;
                                                  unique = unique;
                                                  admitted = admitted;
                                                  active = active;
                                                  bound = bound;
                                                  found = found;
                                                  proved = proved;
                                                  owned = owned;
                                                  made = made;
                                                  valid = rw made valid;
                                                }
                                          ]
                                    ]
                              ]
                        ]
                  ]
        ]
      ]
    where
      finished :
          (s : EpochSession) (v : ValidationRecord) (ids : DecisionIds) (es : List PlanEvidence)
          (n : NoCutProof) (agents : List String)
          → single (filter (λ c. c.session_id == session_id) db.sessions) ≡ some s
          → check_session p ports db s ≡ ok tt
          → single (filter (λ c. some c.validation_id == s.active_validation_id) db.validations)
            ≡ some v
          → check_validation p ports db s plan_id v ≡ ok ids
          → plan_evidence p ports db s v ids ≡ ok es
          → plan_proof p ports db s v ids es ≡ ok n
          → plan_owners p ports db s v es n ≡ ok agents
          → (plan ≡ new_plan p ports db plan_id s v ids es agents)
            × (plan_schema p (new_plan p ports db plan_id s v ids es agents) ≡ true)
      finished s v ids es n agents unique admitted active bound found proved owned =
          (ground arith, ground arith)

  pub owner_facts :
      (s : EpochSession) (v : ValidationRecord) (es : List PlanEvidence) (n : NoCutProof)
      (agents : List String)
      → plan_owners p ports db s v es n ≡ ok agents
      → (refresh_set v.validated_head (map (λ e. e.interval) es) ≡ ok agents)
        × (agents ≡ s.frozen_assignments.budget_agent_id ∷ [])
  unfolding plan_owners
  owner_facts s v es n agents h = elim (Result-cases (require_budget_owner s n.refresh_agent_ids)) [
    | inr (_, e) ↦ absurd (ground arith)
    | inl (_, proposed) ↦
        elim (Result-cases (refresh_set v.validated_head (map (λ e. e.interval) es))) [
          | inr (_, e) ↦ absurd (ground arith)
          | inl (is, computed) ↦ elim (Result-cases (require_budget_owner s is)) [
            | inr (_, e) ↦ absurd (ground arith)
            | inl (a, allowed) ↦
                let same : is ≡ agents = ground arith in
                (rw (← same) computed, rw (← same) ((require_budget_owner-eq s is a allowed).0))
          ]
        ]
  ]

  open_conflict :
      (s : EpochSession) (v : ValidationRecord) (ids : DecisionIds) (es : List PlanEvidence)
      (n : NoCutProof)
      → proof_open p ports db s v ids es n ≡ false
      → ltb (latest_start es) (earliest_end v.validated_head es) ≡ false
  unfolding proof_open
  open_conflict s v ids es n h = ground arith

  pub proof_facts :
      (s : EpochSession) (v : ValidationRecord) (ids : DecisionIds) (es : List PlanEvidence)
      (n : NoCutProof)
      → plan_proof p ports db s v ids es ≡ ok n
      → earliest_end v.validated_head es ≤ latest_start es
  unfolding plan_proof
  proof_facts s v ids es n h =
      elim (Option-cases
        (single (filter (λ c. some c.proof_id == v.no_cut_proof_id) db.no_cut_proofs))) [
          | inl e ↦ absurd (ground arith)
          | inr (x, e) ↦
              ltb→ge (latest_start es) (earliest_end v.validated_head es)
                (open_conflict s v ids es x (ground arith))
        ]

  -- The Validation that a plan answers: the current one of the Session, which found no common cut.
  pub record IsConflictOf (s : EpochSession) (v : ValidationRecord) (ids : DecisionIds)
      : Type 0 where
    pub outcome : v.outcome ≡ ValidationOutcome.no_valid_observed_world_cut
    pub at_head : v.validated_head ≡ db.head_seq
    pub session : v.session_id ≡ s.session_id
    pub action : v.action_hash ≡ s.action_hash
    pub decisions : active_ids s.active_decision_certificate_ids ≡ some ids

  pub check_validation-IsConflictOf :
      (s : EpochSession) (plan_id : String) (v : ValidationRecord) (ids : DecisionIds)
      → check_validation p ports db s plan_id v ≡ ok ids
      → IsConflictOf s v ids
  unfolding check_validation
  check_validation-IsConflictOf s plan_id v ids h =
      elim (Option-cases (active_ids s.active_decision_certificate_ids)) [
        | inl e ↦ absurd (ground arith)
        | inr (found, e) ↦
            let same : found ≡ ids = ground arith in
            record {
              outcome =
                  eq_of_bne v.outcome ValidationOutcome.no_valid_observed_world_cut (ground arith);
              at_head = eq_of_bne v.validated_head db.head_seq (ground arith);
              session = eq_of_bne v.session_id s.session_id (ground arith);
              action = eq_of_bne v.action_hash s.action_hash (ground arith);
              decisions = e ∙ ap some same;
            }
      ]

  pub check_session-blocked :
      (s : EpochSession)
      → check_session p ports db s ≡ ok tt
      → s.state ≡ SessionState.blocked_no_cut
  unfolding check_session
  check_session-blocked s h = eq_of_bne s.state SessionState.blocked_no_cut (ground arith)
