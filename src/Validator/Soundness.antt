-- ===== src/Validator/Soundness.antt =====
-- What the outcome of `validateJointValidity` in
-- apps/server/src/epochguard/joint-validity-validator.ts means for the evidence.
use epochguard.Prelude.{
  ℕ, ◌≤◌, String, ◌≡◌, inl, inr, true, false, List, [], ◌∷◌, arith, length, any, All, ok,
  Result-cases, Bool-cases, ◌==◌, nat_eq,
}
use epochguard.Platform.{Platform}
use epochguard.Contract.States.{Verdict, verdict_eq}
use epochguard.Contract.RecordStates.{ValidationOutcome}
use epochguard.Contract.Records.{DependencyCertificate, EpochSession}
use epochguard.Contract.Database.{DecisionIds, EpochDatabase}
use epochguard.Validator.{
  ResolvedInterval, ValidationOptions, ValidationResult, active_decision_tuple, resolve_intervals,
}
use epochguard.Validator.Outcome.{
  ValidationScope, lower_bound, current_invalid_agents, classify, validate_joint_validity,
}
use epochguard.Validator.Evidence.{IsResolved, resolve_intervals-IsResolved}
use epochguard.Validator.Cuts.{IsCut, no-IsCut, lower_bound-IsCut, covers_iff, none_invalid_iff}
use epochguard.Validator.Branches.{Branch, blocked, stale, current}

-- What each outcome says of the resolved intervals at a head.
abbrev pub OutcomeMeans : ℕ → List ResolvedInterval → ValidationOutcome → Type 0
OutcomeMeans head is ValidationOutcome.valid_current_allow =
    IsCut is head × All (λ i. i.decision.verdict ≡ Verdict.allow) is
OutcomeMeans head is ValidationOutcome.consistent_deny =
    IsCut is head × (¬ All (λ i. i.decision.verdict ≡ Verdict.allow) is)
OutcomeMeans head is ValidationOutcome.no_valid_observed_world_cut = (seq : ℕ) → ¬ IsCut is seq
OutcomeMeans head is ValidationOutcome.historical_but_stale_now =
    ((seq : ℕ) × IsCut is seq) × (¬ IsCut is head)
OutcomeMeans head is ValidationOutcome.failed = ⊥

-- Where validateJointValidity found its intervals.
pub record Grounds (p : Platform) (db : EpochDatabase) (session_id : String)
    (options : ValidationOptions) : Type 0 where
  pub session : EpochSession
  pub ids : DecisionIds
  pub decisions : List DependencyCertificate
  pub intervals : List ResolvedInterval
  pub active : active_decision_tuple db session_id ≡ ok (session, ids, decisions)
  pub resolved : resolve_intervals p db session decisions db.head_seq options ≡ ok intervals

abbrev pub scope_of :
    {p : Platform} {db : EpochDatabase} {id : String} {options : ValidationOptions}
    → Grounds p db id options
    → ValidationScope
scope_of {db} {options} g = record {
  session = g.session;
  ids = g.ids;
  head = db.head_seq;
  intervals = g.intervals;
  options = options;
}

All-allow :
    (is : List ResolvedInterval)
    → any (λ i. i.decision.verdict == Verdict.deny) is ≡ false
    → All (λ i. i.decision.verdict ≡ Verdict.allow) is
All-allow [] h = tt
All-allow (i ∷ is) h = (ground arith, All-allow is (ground arith))

not-All-allow :
    (is : List ResolvedInterval)
    → any (λ i. i.decision.verdict == Verdict.deny) is ≡ true
    → ¬ All (λ i. i.decision.verdict ≡ Verdict.allow) is
not-All-allow [] h all = cc
not-All-allow (i ∷ is) h all = ground (arith, not-All-allow is)

All-both {ℓ} :
    {A : Type ℓ} {P Q R : A → Type 0}
    → ((x : A) → P x → Q x → R x)
    → (xs : List A) → All P xs
    → All Q xs
    → All R xs
All-both f [] hp hq = tt
All-both f (x ∷ xs) hp hq = (f x hp.0 hq.0, All-both f xs hp.1 hq.1)

module _ (p : Platform) (db : EpochDatabase) (session_id : String)
    (options : ValidationOptions) where
  pub validate-Grounds :
      {res : ValidationResult}
      → validate_joint_validity p db session_id options ≡ ok res
      → (g : Grounds p db session_id options) × (classify p (scope_of g) ≡ ok res)
  unfolding validate_joint_validity
  validate-Grounds h = elim (Result-cases (active_decision_tuple db session_id)) [
    | inr (_, e) ↦ absurd (ground arith)
    | inl ((s, ids, ds), e) ↦
        elim (Result-cases (resolve_intervals p db s ds db.head_seq options)) [
          | inr (_, e') ↦ absurd (ground arith)
          | inl (is, e') ↦ (
            record {
              session = s;
              ids = ids;
              decisions = ds;
              intervals = is;
              active = e;
              resolved = e';
            },
            ground arith,
          )
        ]
  ]

  module _ (g : Grounds p db session_id options) where
    pub evidence :
        All (IsResolved p db g.session db.head_seq options) g.intervals × (1 ≤ length g.intervals)
    evidence =
        let (all, _, some_interval) =
          resolve_intervals-IsResolved p db g.session db.head_seq options g.decisions g.intervals
            g.resolved in
        (all, some_interval)

    pub current-IsCut :
        length (current_invalid_agents db.head_seq g.intervals) ≡ 0 → IsCut g.intervals db.head_seq
    current-IsCut h =
        All-both (λ i covered r. (covers_iff db.head_seq i r.end).0 covered) g.intervals
          ((none_invalid_iff db.head_seq g.intervals).0 h) evidence.0

    stale-not-IsCut :
        1 ≤ length (current_invalid_agents db.head_seq g.intervals)
        → ¬ IsCut g.intervals db.head_seq
    stale-not-IsCut h cut =
        let covered =
          All-both (λ i c r. (covers_iff db.head_seq i r.end).1 c) g.intervals cut evidence.0 in
        omega (arith, h, (none_invalid_iff db.head_seq g.intervals).1 covered)

    pub Branch-OutcomeMeans :
        (res : ValidationResult)
        → Branch p (scope_of g) res
        → OutcomeMeans db.head_seq g.intervals res.validation_record.outcome
    Branch-OutcomeMeans res (blocked _ _ crossed _ _ _ e _ _) =
        rw e (no-IsCut g.intervals evidence.1 crossed)
    Branch-OutcomeMeans res (stale apart some_invalid e _ _) = rw e (
      (lower_bound g.intervals, lower_bound-IsCut g.intervals apart),
      stale-not-IsCut some_invalid,
    )
    Branch-OutcomeMeans res (current apart none_invalid e _ _) =
        rw e (elim (Bool-cases (any (λ i. i.decision.verdict == Verdict.deny) g.intervals)) [
          | inl denied ↦ rw denied (current-IsCut none_invalid, not-All-allow g.intervals denied)
          | inr allowed ↦ rw allowed (current-IsCut none_invalid, All-allow g.intervals allowed)
        ])
