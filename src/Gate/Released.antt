-- ===== src/Gate/Released.antt =====
-- What `commitProtectedEffect` in apps/server/src/epochguard/effect-gate.ts has established when it
-- writes an Effect.
use epochguard.Prelude.{
  ◌≤◌, ◌<◌, String, ◌≡◌, inl, inr, false, List, [], ◌∷◌, arith, Result-cases, ok, string_eq,
}
use epochguard.Platform.{Platform}
use epochguard.Contract.States.{Role, session_state_eq}
use epochguard.Contract.RecordStates.{ValidationOutcome, permit_state_eq, outcome_eq}
use epochguard.Contract.Records.{EpochSession}
use epochguard.Contract.Database.{
  DecisionIds, JointValidityCertificate, ValidationRecord, EffectPermit, EpochDatabase,
}
use epochguard.Gate.Base.{GatePorts, frozen_registrations, ordered_active_ids}
use epochguard.Gate.Evidence.{RoleEvidence}
use epochguard.Gate.Existing.{evidence_lower, evidence_upper, bounds_mismatch}
use epochguard.Gate.Plans.{completed_plan_closure}
use epochguard.Gate.Current.{IsCurrent, current_role-IsCurrent}
use epochguard.Gate.Release.{
  Release, release_of, current_evidence, current_role, permit_certificate, active_validation,
  binding_mismatch,
}

module _ (p : Platform) (ports : GatePorts) (db : EpochDatabase) (s : EpochSession)
    (hash : String) where
  -- One piece of current evidence for each role.
  pub record AreCurrent (ids : DecisionIds) (es : List RoleEvidence) : Type 0 where
    pub inventory : RoleEvidence
    pub budget : RoleEvidence
    pub policy : RoleEvidence
    pub in_order : es ≡ inventory ∷ budget ∷ policy ∷ []
    pub inventory_current : IsCurrent p ports db s hash Role.inventory ids.inventory inventory
    pub budget_current : IsCurrent p ports db s hash Role.budget ids.budget budget
    pub policy_current : IsCurrent p ports db s hash Role.policy ids.policy policy

  pub current_evidence-AreCurrent :
      (jvc : JointValidityCertificate) (ids : DecisionIds) (es : List RoleEvidence)
      → current_evidence p ports db s hash jvc ids ≡ ok es
      → AreCurrent ids es
  unfolding current_evidence
  current_evidence-AreCurrent jvc ids es h = elim (Result-cases (frozen_registrations p db s 0)) [
    | inr (_, x) ↦ absurd (ground arith)
    | inl (f, ef) ↦
        elim (Result-cases (current_role p ports db s hash jvc f Role.inventory ids.inventory)) [
          | inr (_, x) ↦ absurd (ground arith)
          | inl (i, first) ↦
              elim (Result-cases (current_role p ports db s hash jvc f Role.budget ids.budget)) [
                | inr (_, x) ↦ absurd (ground arith)
                | inl (b, second) ↦
                    elim (Result-cases
                      (current_role p ports db s hash jvc f Role.policy ids.policy)) [
                        | inr (_, x) ↦ absurd (ground arith)
                        | inl (q, third) ↦ record {
                          inventory = i;
                          budget = b;
                          policy = q;
                          in_order = ground arith;
                          inventory_current =
                              current_role-IsCurrent p ports db s hash jvc f _ _ i first;
                          budget_current =
                              current_role-IsCurrent p ports db s hash jvc f _ _ b second;
                          policy_current =
                              current_role-IsCurrent p ports db s hash jvc f _ _ q third;
                        }
                      ]
              ]
        ]
  ]

  -- The evidence of a release is current, and its intervals have the head in common.
  pub record IsGrounded (r : Release) : Type 0 where
    pub ids : DecisionIds
    pub active : ordered_active_ids s 0 ≡ ok ids
    pub current : AreCurrent ids r.evidence
    pub from_bound : evidence_lower r.evidence ≤ db.head_seq
    pub until_bound : db.head_seq < evidence_upper r.evidence
    pub outcome : r.validation.outcome ≡ ValidationOutcome.valid_current_allow
    pub validated : r.validation.validated_head ≡ db.head_seq

  bound_outcome :
      (m : EffectPermit) (c : JointValidityCertificate) (v : ValidationRecord) (ids : DecisionIds)
      → binding_mismatch p ports db s hash m c v ids ≡ false
      → (v.outcome ≡ ValidationOutcome.valid_current_allow) × (v.validated_head ≡ db.head_seq)
  unfolding binding_mismatch
  bound_outcome m c v ids h = (
    (outcome_eq.beq_iff v.outcome ValidationOutcome.valid_current_allow).0 (ground arith),
    ground arith,
  )

  head_between :
      (v : ValidationRecord) (es : List RoleEvidence)
      → bounds_mismatch v es db.head_seq ≡ false
      → (evidence_lower es ≤ db.head_seq) × (db.head_seq < evidence_upper es)
  unfolding bounds_mismatch
  head_between v es h = (ground arith, ground arith)

  pub release_of-IsGrounded :
      (m : EffectPermit) (r : Release)
      → release_of p ports db s hash m ≡ ok r
      → (r.permit ≡ m) × IsGrounded r
  unfolding release_of
  release_of-IsGrounded m r h = elim (Result-cases (permit_certificate p ports db s hash m)) [
    | inr (_, x) ↦ absurd (ground arith)
    | inl (c, ec) ↦ elim (Result-cases (active_validation p ports db s hash c)) [
      | inr (_, x) ↦ absurd (ground arith)
      | inl (v, ev) ↦ elim (Result-cases (ordered_active_ids s 0)) [
        | inr (_, x) ↦ absurd (ground arith)
        | inl (ids, active) ↦ elim (Result-cases (current_evidence p ports db s hash c ids)) [
          | inr (_, x) ↦ absurd (ground arith)
          | inl (es, current) ↦ elim (Result-cases (completed_plan_closure p db s hash 0 v)) [
            | inr (_, x) ↦ absurd (ground arith)
            | inl (_, eu) ↦
                let same : es ≡ r.evidence = ground arith in
                let valid : v ≡ r.validation = ground arith in
                let (allowed, validated) = bound_outcome m c v ids (ground arith) in
                let (from_bound, until_bound) = head_between v es (ground arith) in
                (
                  ground arith,
                  record {
                    ids = ids;
                    active = active;
                    current = rw (← same) (current_evidence-AreCurrent c ids es current);
                    from_bound = rw (← same) from_bound;
                    until_bound = rw (← same) until_bound;
                    outcome = cc;
                    validated = cc;
                  },
                )
          ]
        ]
      ]
    ]
  ]
