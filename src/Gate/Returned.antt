-- ===== src/Gate/Returned.antt =====
-- The return of an existing Effect in apps/server/src/epochguard/effect-gate.ts.
use epochguard.Prelude.{
  String, ◌≡◌, refl, inl, inr, false, some, none, List, [], ◌∷◌, arith, Result-cases, ok, string_eq,
  nat_eq,
}
use epochguard.Platform.{Platform}
use epochguard.Contract.States.{session_state_eq}
use epochguard.Contract.RecordStates.{permit_state_eq}
use epochguard.Contract.Records.{EpochSession}
use epochguard.Contract.Database.{EffectRecord, EpochDatabase}
use epochguard.Gate.Base.{GatePorts, CommitResult, committed}
use epochguard.Gate.Existing.{
  existing_effect_of, confirm_effect, effect_permit, effect_certificate, effect_validation,
  committed_evidence_closure,
}
use epochguard.Gate.Plans.{completed_plan_closure}

module _ (p : Platform) (ports : GatePorts) (db : EpochDatabase) where
  confirm_effect-eq :
      (s : EpochSession) (hash key : String) (e : EffectRecord) (found : CommitResult)
      → confirm_effect p ports db s hash key e ≡ ok found
      → found ≡ committed false e
  unfolding confirm_effect
  confirm_effect-eq s hash key e found h =
      elim (Result-cases (effect_permit p ports db s hash 1 e)) [
        | inr (_, x) ↦ absurd (ground arith)
        | inl (m, em) ↦ elim (Result-cases (effect_certificate p ports db s hash 1 e m)) [
          | inr (_, x) ↦ absurd (ground arith)
          | inl (c, ec) ↦ elim (Result-cases (effect_validation p ports db s hash 1 e m c)) [
            | inr (_, x) ↦ absurd (ground arith)
            | inl (v, ev) ↦
                elim (Result-cases (
                  committed_evidence_closure p ports db s hash 1 c v e.dependency_set_hash
                    m.validated_head)) [
                      | inr (_, x) ↦ absurd (ground arith)
                      | inl (_, ex) ↦ elim (Result-cases (completed_plan_closure p db s hash 1 v)) [
                        | inr (_, x) ↦ absurd (ground arith)
                        | inl (_, ey) ↦ ground arith
                      ]
                    ]
          ]
        ]
      ]

  pub returned_of :
      (s : EpochSession) (hash key : String) (result : CommitResult) (es : List EffectRecord)
      → existing_effect_of p ports db s hash key es ≡ ok (some result)
      → (e : EffectRecord) × (es ≡ e ∷ []) × (result ≡ committed false e)
  returned_of s hash key result [] h = cc
  returned_of s hash key result (e ∷ []) h =
      elim (Result-cases (confirm_effect p ports db s hash key e)) [
        | inr (_, x) ↦ absurd (ground arith)
        | inl (found, confirmed) ↦
            let same : found ≡ result = ground arith in
            (e, refl, rw (← same) (confirm_effect-eq s hash key e found confirmed))
      ]
  returned_of s hash key result (e ∷ e' ∷ es) h = cc

  pub absent_of :
      (s : EpochSession) (hash key : String) (es : List EffectRecord)
      → existing_effect_of p ports db s hash key es ≡ ok none
      → es ≡ []
  absent_of s hash key [] h = refl
  absent_of s hash key (e ∷ []) h = elim (Result-cases (confirm_effect p ports db s hash key e)) [
    | inr (_, x) ↦ absurd (ground arith)
    | inl (found, confirmed) ↦ absurd (ground arith)
  ]
  absent_of s hash key (e ∷ e' ∷ es) h = cc
