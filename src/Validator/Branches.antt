-- ===== src/Validator/Branches.antt =====
-- What the three branches of `validateJointValidity` in
-- apps/server/src/epochguard/joint-validity-validator.ts return.
use epochguard.Prelude.{
  ◌≤◌, ◌<◌, String, ◌≡◌, inl, inr, some, none, List, arith, length, ok, Option-cases, Bool-cases,
  leb,
}
use epochguard.Platform.{Platform}
use epochguard.Contract.States.{verdict_eq}
use epochguard.Contract.RecordStates.{ValidationOutcome}
use epochguard.Validator.{ResolvedInterval, ValidationResult}
use epochguard.Validator.Outcome.{
  ValidationScope, lower_bound, upper_bound, current_invalid_agents, earliest_ending,
  latest_starting, no_cut_result, historical_result, current_result, current_outcome, classify,
  no_cut_record, certificate_record,
}

module _ (p : Platform) (c : ValidationScope) where
  -- The invalid owners at the head of the scope.
  abbrev pub invalid : List String
  invalid = current_invalid_agents c.head c.intervals

  -- A branch with the facts that lead to it and what it returns.
  pub data Branch (res : ValidationResult) : Type 0 where
    blocked :
        (earliest latest : ResolvedInterval)
        → upper_bound c.intervals ≤ lower_bound c.intervals
        → 1 ≤ length invalid
        → earliest_ending c.intervals ≡ some earliest
        → latest_starting c.intervals ≡ some latest
        → res.validation_record.outcome ≡ ValidationOutcome.no_valid_observed_world_cut
        → res.joint_validity_certificate ≡ none
        → res.no_cut_proof ≡ some (no_cut_record p c earliest latest invalid)
        → Branch res
    stale :
        lower_bound c.intervals < upper_bound c.intervals
        → 1 ≤ length invalid
        → res.validation_record.outcome ≡ ValidationOutcome.historical_but_stale_now
        → res.joint_validity_certificate ≡ none
        → res.no_cut_proof ≡ none
        → Branch res
    current :
        lower_bound c.intervals < upper_bound c.intervals
        → length invalid ≡ 0
        → res.validation_record.outcome ≡ current_outcome p c.intervals
        → res.joint_validity_certificate ≡ some (certificate_record p c)
        → res.no_cut_proof ≡ none
        → Branch res

  no_cut-Branch :
      (res : ValidationResult)
      → no_cut_result p c invalid ≡ ok res
      → upper_bound c.intervals ≤ lower_bound c.intervals
      → Branch res
  unfolding no_cut_result
  no_cut-Branch res h crossed = elim (Option-cases (earliest_ending c.intervals)) [
    | inl e ↦ absurd (ground arith)
    | inr (earliest, e) ↦ elim (Option-cases (latest_starting c.intervals)) [
      | inl e' ↦ absurd (ground arith)
      | inr (latest, e') ↦
          blocked earliest latest crossed (ground arith) e e' (ground arith) (ground arith)
            (ground arith)
    ]
  ]

  historical-Branch :
      (res : ValidationResult)
      → historical_result p c invalid ≡ ok res
      → lower_bound c.intervals < upper_bound c.intervals
      → 1 ≤ length invalid
      → Branch res
  unfolding historical_result
  historical-Branch res h lt some_invalid =
      stale lt some_invalid (ground arith) (ground arith) (ground arith)

  current-Branch :
      (res : ValidationResult)
      → current_result p c invalid ≡ ok res
      → lower_bound c.intervals < upper_bound c.intervals
      → length invalid ≡ 0
      → Branch res
  unfolding current_result
  current-Branch res h lt none_invalid =
      current lt none_invalid (ground arith) (ground arith) (ground arith)

  -- A classification that returns took one of the branches.
  pub classify-Branch : (res : ValidationResult) → classify p c ≡ ok res → Branch res
  unfolding classify
  classify-Branch res h =
      elim (Bool-cases (leb (upper_bound c.intervals) (lower_bound c.intervals))) [
        | inl crossed ↦ no_cut-Branch res (rw crossed at h) (ground arith)
        | inr apart ↦ elim (Bool-cases (leb 1 (length invalid))) [
          | inl invalid_some ↦
              historical-Branch res (rw (apart, invalid_some) at h) (ground arith) (ground arith)
          | inr invalid_none ↦
              current-Branch res (rw (apart, invalid_none) at h) (ground arith) (ground arith)
        ]
      ]
