-- ===== src/Gate/Current.antt =====
-- What the evidence loop of `commitProtectedEffect` in apps/server/src/epochguard/effect-gate.ts
-- establishes for one role.
use epochguard.Prelude.{
  ℕ, ◌≤◌, ◌<◌, String, ◌≡◌, inl, inr, some, arith, Result-cases, ok, string_eq, Option-cases, ◌∙◌,
  ap, eq_of_bne, nat_eq, option_eq,
}
use text.Mathlib.TextEquality.{eq_iff}
use epochguard.Platform.{Platform}
use epochguard.Contract.Json.{value_digest}
use epochguard.Contract.States.{Role, Verdict, role_eq, verdict_eq}
use epochguard.Contract.RecordStates.{assignment_state_eq, decision_state_eq}
use epochguard.Contract.Records.{
  RunAssignment, ResourceVersion, ObservationReceipt, DependencyCertificate, EpochSession,
}
use epochguard.Contract.Database.{JointValidityCertificate, EpochDatabase}
use epochguard.Validator.{effective_end}
use epochguard.Verdict.{authoritative_verdict}
use epochguard.Gate.Base.{GatePorts, FrozenRegistrations}
use epochguard.Gate.Evidence.{
  RoleEvidence, role_decision, role_assignment, role_attempt, role_receipt, role_version,
  role_interval,
}
use epochguard.Gate.Release.{current_role}
use epochguard.Gate.Bindings.{
  IsAllow, IsConsumedBy, IsReceiptOf, role_decision-IsAllow, role_assignment-IsConsumedBy,
  role_receipt-IsReceiptOf,
}

module _ (p : Platform) (db : EpochDatabase) (s : EpochSession) (hash : String) (n : ℕ)
    (role : Role) where
  -- A version that the resolver gives for a Receipt, with a verified value that allows the Action,
  -- and that is valid where the Receipt observed it and at the head.
  pub record IsAuthoritative (ports : GatePorts) (head : ℕ) (r : ObservationReceipt)
      (v : ResourceVersion) : Type 0 where
    pub resolved : ports.resolve_resource_version db r ≡ some v
    pub verified : v.value_hash ≡ value_digest p v.value
    pub unchanged : v.value_hash ≡ r.value_hash
    pub revision : v.source_revision ≡ r.source_revision
    pub observed : r.observed_at_seq ≤ head
    pub observed_from : v.valid_from_seq ≤ r.observed_at_seq
    pub allows : authoritative_verdict role s.action v.value ≡ some Verdict.allow
    pub starts : v.valid_from_seq ≤ head
    pub ends : head < effective_end head v.valid_until_seq

  pub role_version-IsAuthoritative :
      (ports : GatePorts) (head : ℕ) (r : ObservationReceipt) (v : ResourceVersion)
      → role_version p db s hash n role ports head r ≡ ok v
      → IsAuthoritative ports head r v
  unfolding role_version
  role_version-IsAuthoritative ports head r v h =
      elim (Option-cases (ports.resolve_resource_version db r)) [
        | inl e ↦ absurd (ground arith)
        | inr (w, e) ↦ elim (Option-cases (authoritative_verdict role s.action w.value)) [
          | inl e' ↦ absurd (ground arith)
          | inr (verdict, judged) ↦
              let same : w ≡ v = ground arith in
              rw (← same) (record {
                resolved = e;
                verified = ground (arith, eq_iff w.value_hash (value_digest p w.value));
                unchanged = ground (arith, eq_iff w.value_hash r.value_hash);
                revision = eq_of_bne w.source_revision r.source_revision (ground arith);
                observed = ground arith;
                observed_from = ground arith;
                allows =
                    judged ∙ ap some ((verdict_eq.beq_iff verdict Verdict.allow).0 (ground arith));
                starts = ground arith;
                ends = ground arith;
              })
        ]
      ]

-- What one round of the loop establishes: an active ALLOW, the Assignment that it consumed and the
-- Receipt on which it rests, and an authoritative version for that Receipt at the head that bears it
-- out and whose interval is the round's.
pub record IsCurrent (p : Platform) (ports : GatePorts) (db : EpochDatabase) (s : EpochSession)
    (hash : String) (role : Role) (id : String) (e : RoleEvidence) : Type 0 where
  pub decision : DependencyCertificate
  pub allow : IsAllow p db s hash 0 role id decision
  pub assignment : RunAssignment
  pub consumed : IsConsumedBy p db s hash 0 role decision assignment
  pub receipt : ObservationReceipt
  pub received : IsReceiptOf p db s hash 0 role decision assignment receipt
  pub version : ResourceVersion
  pub authoritative : IsAuthoritative p db s hash 0 role ports db.head_seq receipt version
  pub same_receipt : e.receipt_id ≡ receipt.receipt_id
  pub same_run : e.run_id ≡ decision.run_id
  pub same_from : e.from ≡ version.valid_from_seq
  pub same_until : e.until ≡ effective_end db.head_seq version.valid_until_seq

module _ (p : Platform) (ports : GatePorts) (db : EpochDatabase) (s : EpochSession) (hash : String)
    (jvc : JointValidityCertificate) (f : FrozenRegistrations) (role : Role) (id : String) where
  pub current_role-IsCurrent :
      (e : RoleEvidence)
      → current_role p ports db s hash jvc f role id ≡ ok e
      → IsCurrent p ports db s hash role id e
  unfolding current_role
  current_role-IsCurrent e h = elim (Result-cases (role_decision p db s hash 0 role id)) [
    | inr (_, x) ↦ absurd (ground arith)
    | inl (d, decided) ↦ elim (Result-cases (role_assignment p db s hash 0 role f d)) [
      | inr (_, x) ↦ absurd (ground arith)
      | inl (a, ea) ↦ elim (Result-cases (role_attempt p db s hash 0 role d a)) [
        | inr (_, x) ↦ absurd (ground arith)
        | inl (t, et) ↦ elim (Result-cases (role_receipt p db s hash 0 role d a)) [
          | inr (_, x) ↦ absurd (ground arith)
          | inl (r, er) ↦
              elim (Result-cases (role_version p db s hash 0 role ports db.head_seq r)) [
                | inr (_, x) ↦ absurd (ground arith)
                | inl (v, resolved) ↦ elim (Result-cases (role_interval p db s hash 0 role jvc r)) [
                  | inr (_, x) ↦ absurd (ground arith)
                  | inl (i, ei) ↦ record {
                    decision = d;
                    allow = role_decision-IsAllow p db s hash 0 role id d decided;
                    assignment = a;
                    consumed = role_assignment-IsConsumedBy p db s hash 0 role f d a ea;
                    receipt = r;
                    received = role_receipt-IsReceiptOf p db s hash 0 role d a r er;
                    version = v;
                    authoritative =
                        role_version-IsAuthoritative p db s hash 0 role ports db.head_seq r v
                          resolved;
                    same_receipt = ground arith;
                    same_run = ground arith;
                    same_from = ground arith;
                    same_until = ground arith;
                  }
                ]
              ]
        ]
      ]
    ]
  ]
