-- ===== src/Refresh/Evidence.antt =====
-- What the loop over ROLES in `buildRefreshPlan` of
-- apps/server/src/epochguard/refresh-planner.ts has found.
use epochguard.Prelude.{
  String, ◌≡◌, refl, sym, inl, inr, List, [], ◌∷◌, arith, string_eq, ok, Result-cases, eq_of_bne,
  nat_eq, option_eq,
}
use epochguard.Platform.{Platform}
use epochguard.Contract.States.{Role, role_eq}
use epochguard.Contract.RecordStates.{decision_state_eq}
use epochguard.Contract.Records.{
  ResourceVersion, ObservationReceipt, DependencyCertificate, EpochSession,
}
use epochguard.Contract.Database.{DecisionIds, ValidationRecord, EpochDatabase}
use epochguard.Decision.Binding.{frozen_agent_id}
use epochguard.Refresh.{RefreshPorts}
use epochguard.Refresh.Gather.{
  PlanEvidence, plan_decision, plan_receipt, plan_version, role_evidence, plan_evidence,
  evidence_hash,
}
use epochguard.Refresh.Bindings.{
  IsDecisionOf, IsReceiptOf, IsVersionOf, plan_decision-IsDecisionOf, plan_receipt-IsReceiptOf,
  plan_version-IsVersionOf,
}

module _ (p : Platform) (ports : RefreshPorts) (db : EpochDatabase) (s : EpochSession) where
  -- The evidence of one role: its Decision, the Decision's Receipt, the version that the world
  -- answers for that Receipt, and its interval.
  pub record IsEvidence (v : ValidationRecord) (role : Role) (id : String) (e : PlanEvidence)
      : Type 0 where
    pub of_role : e.interval.role ≡ role
    pub owned : e.interval.agent_id ≡ frozen_agent_id s role
    pub decision : DependencyCertificate
    pub receipt : ObservationReceipt
    pub version : ResourceVersion
    pub decided : IsDecisionOf p ports db s role id decision
    pub received : IsReceiptOf p ports db s v role decision receipt
    pub found : IsVersionOf p ports db s receipt version
    pub named : e.receipt_id ≡ decision.receipt_id
    pub from : e.interval.from ≡ version.valid_from_seq
    pub until : e.interval.until ≡ version.valid_until_seq

  role_evidence-IsEvidence :
      (v : ValidationRecord) (role : Role) (id : String) (e : PlanEvidence)
      → role_evidence p ports db s v role id ≡ ok e
      → IsEvidence v role id e
  unfolding role_evidence
  role_evidence-IsEvidence v role id e h =
      elim (Result-cases (plan_decision p ports db s role id)) [
        | inr (_, failed) ↦ absurd (ground arith)
        | inl (d, decided) ↦ elim (Result-cases (plan_receipt p ports db s v role d)) [
          | inr (_, failed) ↦ absurd (ground arith)
          | inl (r, received) ↦ elim (Result-cases (plan_version p ports db role r)) [
            | inr (_, failed) ↦ absurd (ground arith)
            | inl (w, found) ↦
                let same = made d r w decided received found in
                let decision = plan_decision-IsDecisionOf p ports db s role id d decided in
                rw (← same) (record {
                  of_role = refl;
                  owned = sym decision.agent;
                  decision = d;
                  receipt = r;
                  version = w;
                  decided = decision;
                  received = plan_receipt-IsReceiptOf p ports db s v role d r received;
                  found = plan_version-IsVersionOf p ports db s role r w found;
                  named = refl;
                  from = refl;
                  until = refl;
                })
          ]
        ]
      ]
    where
      made :
          (d : DependencyCertificate) (r : ObservationReceipt) (w : ResourceVersion)
          → plan_decision p ports db s role id ≡ ok d
          → plan_receipt p ports db s v role d ≡ ok r
          → plan_version p ports db role r ≡ ok w
          → record {
            receipt_id = d.receipt_id;
            interval = record {
              role = role;
              agent_id = d.agent_id;
              from = w.valid_from_seq;
              until = w.valid_until_seq;
            };
          }
            ≡ e
      made d r w decided received found = ground arith

  -- The evidence of the three roles, in their order.
  pub record IsEvidenceOfAll (v : ValidationRecord) (ids : DecisionIds) (es : List PlanEvidence)
      : Type 0 where
    pub inventory : PlanEvidence
    pub budget : PlanEvidence
    pub policy : PlanEvidence
    pub of_inventory : IsEvidence v Role.inventory ids.inventory inventory
    pub of_budget : IsEvidence v Role.budget ids.budget budget
    pub of_policy : IsEvidence v Role.policy ids.policy policy
    pub all : es ≡ inventory ∷ budget ∷ policy ∷ []
    pub dependencies : evidence_hash p ports db es ≡ v.dependency_set_hash

  pub plan_evidence-IsEvidenceOfAll :
      (v : ValidationRecord) (ids : DecisionIds) (es : List PlanEvidence)
      → plan_evidence p ports db s v ids ≡ ok es
      → IsEvidenceOfAll v ids es
  unfolding plan_evidence
  plan_evidence-IsEvidenceOfAll v ids es h =
      elim (Result-cases (role_evidence p ports db s v Role.inventory ids.inventory)) [
        | inr (_, failed) ↦ absurd (ground arith)
        | inl (i, ei) ↦ elim (Result-cases (role_evidence p ports db s v Role.budget ids.budget)) [
          | inr (_, failed) ↦ absurd (ground arith)
          | inl (b, eb) ↦
              elim (Result-cases (role_evidence p ports db s v Role.policy ids.policy)) [
                | inr (_, failed) ↦ absurd (ground arith)
                | inl (q, eq) ↦ record {
                  inventory = i;
                  budget = b;
                  policy = q;
                  of_inventory = role_evidence-IsEvidence v Role.inventory ids.inventory i ei;
                  of_budget = role_evidence-IsEvidence v Role.budget ids.budget b eb;
                  of_policy = role_evidence-IsEvidence v Role.policy ids.policy q eq;
                  all = (listed i b q ei eb eq).0;
                  dependencies = (listed i b q ei eb eq).1;
                }
              ]
        ]
      ]
    where
      listed :
          (i b q : PlanEvidence)
          → role_evidence p ports db s v Role.inventory ids.inventory ≡ ok i
          → role_evidence p ports db s v Role.budget ids.budget ≡ ok b
          → role_evidence p ports db s v Role.policy ids.policy ≡ ok q
          → (es ≡ i ∷ b ∷ q ∷ []) × (evidence_hash p ports db es ≡ v.dependency_set_hash)
      listed i b q ei eb eq =
          let same : i ∷ b ∷ q ∷ [] ≡ es = ground arith in
          (
            sym same,
            eq_of_bne (evidence_hash p ports db es) v.dependency_set_hash
                (rw (← same) (ground arith)),
          )
