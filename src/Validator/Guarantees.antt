-- ===== src/Validator/Guarantees.antt =====
-- The guarantees of `validateJointValidity` in
-- apps/server/src/epochguard/joint-validity-validator.ts.
use epochguard.Prelude.{
  ◌≤◌, String, ◌≡◌, refl, inl, Bool, true, some, List, [], ◌∷◌, map, arith, length, All, Member,
  Member-unsort, Member-filter, ok, ◌==◌, nat_eq, sort, filter, eq_of_beq,
}
use epochguard.Platform.{Platform}
use epochguard.Contract.Database.{EpochDatabase, NoCutProof, JointValidityCertificate}
use epochguard.Validator.{ResolvedInterval, ValidationOptions, ValidationResult}
use epochguard.Validator.Outcome.{
  lower_bound, upper_bound, current_invalid_agents, earliest_ending, latest_starting, first,
  receipt_lt, validate_joint_validity, certificate_interval,
}
use epochguard.Validator.Active.{IsActiveTuple, active_decision_tuple-IsActiveTuple}
use epochguard.Validator.Evidence.{IsResolved, resolve_intervals-IsResolved}
use epochguard.Validator.Cuts.{IsCut}
use epochguard.Validator.Branches.{blocked, stale, current, classify-Branch}
use epochguard.Validator.Soundness.{
  OutcomeMeans, Grounds, scope_of, validate-Grounds, Branch-OutcomeMeans, current-IsCut,
}

-- The first of a sorted selection is a member that passes.
first-sort-filter :
    (q : ResolvedInterval → Bool) (is sorted : List ResolvedInterval) (i : ResolvedInterval)
    → sort receipt_lt (filter q is) ≡ sorted
    → first sorted ≡ some i
    → Member i is × (q i ≡ true)
first-sort-filter q is [] i e h = cc
first-sort-filter q is (j ∷ js) i e h =
    Member-filter q i is (Member-unsort receipt_lt i (filter q is) (rw e (inl (ground arith))))

-- The two intervals of a no-cut witness: members, of which one ends before the other begins.
pub record IsWitness (is : List ResolvedInterval) (earliest latest : ResolvedInterval)
    : Type 0 where
  pub first_member : Member earliest is
  pub second_member : Member latest is
  pub apart : earliest.effective_until ≤ latest.version.valid_from_seq

bounds-IsWitness :
    (is : List ResolvedInterval) (earliest latest : ResolvedInterval)
    → upper_bound is ≤ lower_bound is
    → earliest_ending is ≡ some earliest
    → latest_starting is ≡ some latest
    → IsWitness is earliest latest
unfolding earliest_ending latest_starting
bounds-IsWitness is earliest latest crossed e l =
    let (m, ends) =
      first-sort-filter (λ i. i.effective_until == upper_bound is) is _ earliest refl e in
    let (m', starts) =
      first-sort-filter (λ i. i.version.valid_from_seq == lower_bound is) is _ latest refl l in
    record {
      first_member = m;
      second_member = m';
      apart = omega (
        arith,
        eq_of_beq earliest.effective_until (upper_bound is) ends,
        eq_of_beq latest.version.valid_from_seq (lower_bound is) starts,
        crossed,
      );
    }

module _ (p : Platform) (db : EpochDatabase) (session_id : String) (options : ValidationOptions)
    {res : ValidationResult} (h : validate_joint_validity p db session_id options ≡ ok res) where
  -- A validation that returns gives the outcome that the resolved intervals of the three active
  -- Decisions call for: VALID_CURRENT_ALLOW if the head lies in all of them and every verdict is
  -- ALLOW, CONSISTENT_DENY if the head lies in all and some verdict is not ALLOW, HISTORICAL if
  -- some sequence lies in all but the head does not, and NO_VALID_OBSERVED_WORLD_CUT only if no
  -- sequence lies in all of them. It never gives FAILED.
  pub validate_outcome :
      (g : Grounds p db session_id options) × OutcomeMeans db.head_seq g.intervals
        res.validation_record.outcome
  validate_outcome =
      let (g, classified) = validate-Grounds p db session_id options h in
      (
        g,
        Branch-OutcomeMeans p db session_id options g res
            (classify-Branch p (scope_of g) res classified),
      )

  -- A validation that returns rests on evidence that it has checked. Its intervals stand for the three
  -- Decisions that the Session, the only one of its id, has active, each the only one of its id and of
  -- its role. For each interval its Decision is ACTIVE, of the Session and the Action, and names the only Assignment, Attempt and Receipt of
  -- their identifiers: the Assignment is CONSUMED by it, the Attempt ACCEPTED, all are of the same
  -- Session, Action, role and frozen agent, with the registration and the query of that role. The
  -- version is what the resolver answers for that Receipt, with its source, entity, revision and
  -- hash; the hash is that of the value; the Receipt was observed inside the interval and by the
  -- head; a finite end is not beyond the head; and the verdict is the authoritative one.
  pub validate_evidence :
      (g : Grounds p db session_id options) × IsActiveTuple db session_id g.session g.ids
        g.decisions
      × All (IsResolved p db g.session db.head_seq options) g.intervals
      × (map (λ i. i.decision) g.intervals ≡ g.decisions)
  validate_evidence =
      let (g, _) = validate-Grounds p db session_id options h in
      let (all, order, _) =
        resolve_intervals-IsResolved p db g.session db.head_seq options g.decisions g.intervals
          g.resolved in
      (
        g,
        active_decision_tuple-IsActiveTuple db session_id g.session g.ids g.decisions g.active,
        all,
        order,
      )

  -- A No-Cut proof that is returned can be checked by itself: its two witness Receipts are those of
  -- two resolved intervals, of which the first ends before the second begins, its bounds are those
  -- of the intervals, and the Agents that it names, at least one, are the owners of intervals that
  -- do not cover the head.
  pub validate-IsWitness :
      (proof : NoCutProof)
      → res.no_cut_proof ≡ some proof
      → (g : Grounds p db session_id options) × (earliest : ResolvedInterval)
        × (latest : ResolvedInterval) × IsWitness g.intervals earliest latest
        × (proof.conflict_witness_receipt_ids
            ≡ (earliest.receipt.receipt_id, latest.receipt.receipt_id))
        × (proof.lower_bound ≡ lower_bound g.intervals)
        × (proof.upper_bound ≡ upper_bound g.intervals)
        × (proof.refresh_agent_ids ≡ current_invalid_agents db.head_seq g.intervals)
        × (1 ≤ length proof.refresh_agent_ids)
  validate-IsWitness proof e =
      let (g, classified) = validate-Grounds p db session_id options h in
      elim (classify-Branch p (scope_of g) res classified) [
        | stale _ _ _ _ e' ↦ absurd (cc (e, e'))
        | current _ _ _ _ e' ↦ absurd (cc (e, e'))
        | blocked earliest latest crossed some_invalid ending starting _ _ e' ↦ (
          g,
          earliest,
          latest,
          bounds-IsWitness g.intervals earliest latest crossed ending starting,
          ground arith,
          ground arith,
          ground arith,
          ground arith,
          ground arith,
        )
      ]

  -- A certificate that is returned selects the current head, lists the resolved intervals with the
  -- ends of the authoritative versions, and the head lies in each of them.
  pub validate_certificate :
      (certificate : JointValidityCertificate)
      → res.joint_validity_certificate ≡ some certificate
      → (certificate.selected_cut_seq ≡ db.head_seq)
        × (g : Grounds p db session_id options) × (certificate.intervals
            ≡ map certificate_interval g.intervals)
        × IsCut g.intervals db.head_seq
  validate_certificate certificate e =
      let (g, classified) = validate-Grounds p db session_id options h in
      elim (classify-Branch p (scope_of g) res classified) [
        | stale _ _ _ e' _ ↦ absurd (cc (e, e'))
        | blocked _ _ _ _ _ _ _ e' _ ↦ absurd (cc (e, e'))
        | current _ none_invalid _ e' _ ↦
            (ground arith, g, ground arith, current-IsCut p db session_id options g none_invalid)
      ]
