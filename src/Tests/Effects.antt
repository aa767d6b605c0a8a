-- ===== src/Tests/Effects.antt =====
-- Runs of the effect gate.
use epochguard.Prelude.{none, inl, ◌≡◌, refl, true, false, some, ok, find, ◌==◌, string_eq}
use epochguard.Contract.Database.{EffectPermit, EffectRecord, EpochDatabase}
use epochguard.Contract.Records.{EpochSession}
use epochguard.View.{assert_effect_ledger_closure}
use epochguard.View.Backed.{IsBacked, closure-IsBacked}
use epochguard.Contract.States.{role_eq}
use epochguard.Gate.Base.{GatePorts, committed, rejected, Rejection}
use epochguard.Gate.Commit.{commit_mutation, apply_effect, close_session, invalidate_commit_race}
use epochguard.Gate.Race.{Raced, commit-Raced}
use epochguard.Contract.RecordStates.{FailureCode}
use epochguard.Gate.Retried.{commit_retried}
use epochguard.Gate.Guarantees.{AtMostOnce, Released, commit-Released}
use epochguard.Gate.Protected.{
  commit_protected_effect, EffectsChange, protected-AtMostOnce, protected-EffectsChange,
}
use epochguard.Store.{EpochStore, Settled, mutate, mutate-Settled}
use native.Mathlib.Omega.{arith}
use epochguard.Tests.Fixtures.{History, toy, time, digest, database, steady, session, named, permit}

abbrev ports : GatePorts
ports = record {
  resolve_resource_version =
      λ db r. find (λ v. v.resource_id == named "res" r.role) db.resource_versions;
  effect_id = "effect1";
  now = time;
}

abbrev effect : EffectRecord
effect = record {
  effect_id = "effect1";
  idempotency_key = permit.idempotency_key;
  permit_id = "permit1";
  session_id = "s1";
  action_hash = digest;
  dependency_set_hash = digest;
  joint_validity_certificate_id = "jvc1";
  created_at = time;
}

-- The first commit of a ready Session creates its Effect.
first_commit :
    commit_mutation toy ports (database steady) "s1" 3
    ≡ ok (committed true effect, apply_effect (database steady) session effect)
unfolding commit_mutation epochguard.Contract.EvidenceSchemas.permit_schema
    epochguard.Contract.EvidenceSchemas.certificate_schema
    epochguard.Contract.EvidenceSchemas.validation_schema
    epochguard.Contract.EvidenceSchemas.effect_schema
    epochguard.Contract.Schemas.registration_schema epochguard.Gate.Evidence.role_decision
    epochguard.Contract.Schemas.decision_schema epochguard.Gate.Evidence.role_assignment
    epochguard.Contract.Schemas.assignment_schema epochguard.Contract.Paths.is_evidence_pack_path
    epochguard.Gate.Evidence.role_attempt epochguard.Contract.Schemas.attempt_schema
    epochguard.Gate.Evidence.role_receipt epochguard.Contract.Schemas.receipt_schema
    epochguard.Contract.Action.role_query epochguard.Contract.Action.build_role_query_spec
    epochguard.Gate.Evidence.role_version epochguard.Contract.Schemas.version_schema
    epochguard.Verdict.authoritative_verdict epochguard.Gate.Plans.completed_plan_closure
first_commit = refl

-- The same request again, with the revision of a client that has not heard of the Effect.
abbrev settled : EpochDatabase
settled = apply_effect (database steady) session effect

second_commit : commit_mutation toy ports settled "s1" 3 ≡ ok (committed false effect, settled)
unfolding commit_mutation epochguard.Contract.EvidenceSchemas.permit_schema
    epochguard.Contract.EvidenceSchemas.certificate_schema
    epochguard.Contract.EvidenceSchemas.validation_schema
    epochguard.Contract.EvidenceSchemas.effect_schema
    epochguard.Contract.Schemas.registration_schema epochguard.Gate.Evidence.role_decision
    epochguard.Contract.Schemas.decision_schema epochguard.Gate.Evidence.role_assignment
    epochguard.Contract.Schemas.assignment_schema epochguard.Contract.Paths.is_evidence_pack_path
    epochguard.Gate.Evidence.role_attempt epochguard.Contract.Schemas.attempt_schema
    epochguard.Gate.Evidence.role_receipt epochguard.Contract.Schemas.receipt_schema
    epochguard.Contract.Action.role_query epochguard.Contract.Action.build_role_query_spec
    epochguard.Gate.Evidence.role_version epochguard.Contract.Schemas.version_schema
    epochguard.Verdict.authoritative_verdict epochguard.Gate.Plans.completed_plan_closure
second_commit = refl

commit_retried_example : (committed false effect ≡ committed false effect) × (settled ≡ settled)
commit_retried_example =
    commit_retried toy ports ports (database steady) settled settled settled "s1" 3 3 true effect
      (committed false effect) first_commit refl second_commit

-- The ledger that the commit left is closed.
abbrev shown : EpochSession
shown = close_session time session

ledger_closed : assert_effect_ledger_closure toy settled shown ≡ ok tt
unfolding assert_effect_ledger_closure epochguard.View.is_unclosed epochguard.View.is_stray
ledger_closed = refl

closure-IsBacked_example : (m : EffectPermit) × IsBacked settled shown effect m
closure-IsBacked_example = closure-IsBacked toy settled shown effect ledger_closed (inl refl) refl

none_twice : AtMostOnce (database steady)
none_twice id = omega arith

abbrev store : EpochStore
store = record { data_now = database steady; file = some (database steady) }

commit-Released_example :
    Released toy ports
      (database steady)
      "s1"
      3
      effect
      (apply_effect (database steady) session effect)
commit-Released_example =
    commit-Released toy ports (database steady) "s1" 3 first_commit effect refl

protected-AtMostOnce_example :
    AtMostOnce (commit_protected_effect toy ports store "s1" 3 true).1.data_now
protected-AtMostOnce_example = protected-AtMostOnce toy ports store "s1" 3 true none_twice

protected-EffectsChange_example :
    EffectsChange toy ports store.data_now
      (commit_protected_effect toy ports store "s1" 3 true).1.data_now
      (commit_protected_effect toy ports store "s1" 3 true).0
protected-EffectsChange_example = protected-EffectsChange toy ports store "s1" 3 true

mutate-Settled_example :
    Settled toy store
      (commit_mutation toy ports store.data_now "s1" 3)
      (mutate toy store (λ db. commit_mutation toy ports db "s1" 3) true).0
      (mutate toy store (λ db. commit_mutation toy ports db "s1" 3) true).1
mutate-Settled_example = mutate-Settled toy store (λ db. commit_mutation toy ports db "s1" 3) true

-- The head has moved since the Permit was issued.
abbrev drifted : History
drifted = record { head = 2; from = λ _. 1; until = λ _. none }

abbrev race_rejection : Rejection
race_rejection = record {
  reason_code = FailureCode.commit_race;
  effects_in_session = 0;
  error = none;
}

late_commit :
    commit_mutation toy ports (database drifted) "s1" 3
    ≡ ok (
      rejected race_rejection,
      (invalidate_commit_race (database drifted) session "permit1" time).1,
    )
unfolding commit_mutation epochguard.Contract.EvidenceSchemas.permit_schema
late_commit = refl

commit-Raced_example :
    Raced
      (database drifted)
      "s1"
      3
      race_rejection
      (invalidate_commit_race (database drifted) session "permit1" time).1
commit-Raced_example = commit-Raced toy ports (database drifted) "s1" 3 late_commit
