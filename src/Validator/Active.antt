-- ===== src/Validator/Active.antt =====
-- What `activeDecisionTuple` of apps/server/src/epochguard/joint-validity-validator.ts has found.
use epochguard.Prelude.{
  String, ◌≡◌, ◌∙◌, ap, sym, inl, inr, some, List, [], ◌∷◌, arith, ◌==◌, string_eq, filter, single,
  single-eq, ok, Result-cases, Option-cases, eq_of_bne,
}
use epochguard.Contract.States.{Role, role_eq}
use epochguard.Contract.Records.{DependencyCertificate, EpochSession}
use epochguard.Contract.Database.{DecisionIds, EpochDatabase}
use epochguard.Validator.{active_ids, active_decision, active_decision_tuple}

module _ (db : EpochDatabase) where
  -- The one Decision of an identifier, which is of the role.
  pub record IsActiveDecision (id : String) (role : Role) (d : DependencyCertificate) : Type 0 where
    pub only : filter (λ c. c.certificate_id == id) db.decisions ≡ d ∷ []
    pub of_role : d.role ≡ role

  active_decision-IsActiveDecision :
      (id : String) (role : Role) (d : DependencyCertificate)
      → active_decision db id role ≡ ok d
      → IsActiveDecision id role d
  unfolding active_decision
  active_decision-IsActiveDecision id role d h =
      elim (Option-cases (single (filter (λ c. c.certificate_id == id) db.decisions))) [
        | inl e ↦ absurd (ground arith)
        | inr (x, e) ↦
            let same : x ≡ d = ground arith in
            rw (← same)
              (record { only = single-eq _ x e; of_role = eq_of_bne x.role role (ground arith) })
      ]

  -- The one Session of an identifier, and the Decisions that it has active, in the roles' order.
  pub record IsActiveTuple (session_id : String) (s : EpochSession) (ids : DecisionIds)
      (ds : List DependencyCertificate) : Type 0 where
    pub only : filter (λ c. c.session_id == session_id) db.sessions ≡ s ∷ []
    pub active : active_ids s.active_decision_certificate_ids ≡ some ids
    pub inventory : DependencyCertificate
    pub budget : DependencyCertificate
    pub policy : DependencyCertificate
    pub of_inventory : IsActiveDecision ids.inventory Role.inventory inventory
    pub of_budget : IsActiveDecision ids.budget Role.budget budget
    pub of_policy : IsActiveDecision ids.policy Role.policy policy
    pub all : ds ≡ inventory ∷ budget ∷ policy ∷ []

  pub active_decision_tuple-IsActiveTuple :
      (session_id : String) (s : EpochSession) (ids : DecisionIds) (ds : List DependencyCertificate)
      → active_decision_tuple db session_id ≡ ok (s, ids, ds)
      → IsActiveTuple session_id s ids ds
  unfolding active_decision_tuple
  active_decision_tuple-IsActiveTuple session_id s ids ds h =
      elim (Option-cases (single (filter (λ c. c.session_id == session_id) db.sessions))) [
        | inl e ↦ absurd (ground arith)
        | inr (x, only) ↦ elim (Option-cases (active_ids x.active_decision_certificate_ids)) [
          | inl e ↦ absurd (ground arith)
          | inr (found, active) ↦
              elim (Result-cases (active_decision db found.inventory Role.inventory)) [
                | inr (_, e) ↦ absurd (ground arith)
                | inl (i, ei) ↦ elim (Result-cases (active_decision db found.budget Role.budget)) [
                  | inr (_, e) ↦ absurd (ground arith)
                  | inl (b, eb) ↦
                      elim (Result-cases (active_decision db found.policy Role.policy)) [
                        | inr (_, e) ↦ absurd (ground arith)
                        | inl (q, eq) ↦
                            let same : x ≡ s = ground arith in
                            let tuple : found ≡ ids = ground arith in
                            record {
                              only = single-eq _ x only ∙ ap (λ y. y ∷ []) same;
                              active =
                                  ap (λ y. active_ids y.active_decision_certificate_ids) (sym same)
                                  ∙ active
                                  ∙ ap some tuple;
                              inventory = i;
                              budget = b;
                              policy = q;
                              of_inventory =
                                  rw (← tuple)
                                    (active_decision-IsActiveDecision _ Role.inventory i ei);
                              of_budget =
                                  rw (← tuple)
                                    (active_decision-IsActiveDecision _ Role.budget b eb);
                              of_policy =
                                  rw (← tuple)
                                    (active_decision-IsActiveDecision _ Role.policy q eq);
                              all = ground arith;
                            }
                      ]
                ]
              ]
        ]
      ]
