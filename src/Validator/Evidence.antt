-- ===== src/Validator/Evidence.antt =====
-- What `resolveIntervals` of apps/server/src/epochguard/joint-validity-validator.ts has established
-- of each interval that it returns.
use epochguard.Prelude.{
  ℕ, ◌≤◌, ◌<◌, ◌≡◌, refl, inl, inr, true, some, List, [], ◌∷◌, map, arith, Result, ok, err,
  Result-cases, Option-cases, All, length, distinct, string_eq, option_eq, nat_beq, eq_of_bne,
  nat_eq,
}
use text.Mathlib.TextEquality.{eq_iff}
use epochguard.Platform.{Platform}
use epochguard.Contract.Json.{value_digest}
use epochguard.Contract.States.{verdict_eq, role_eq}
use epochguard.Contract.Records.{
  ResourceVersion, ObservationReceipt, DependencyCertificate, EpochSession,
}
use epochguard.Contract.Database.{EpochDatabase}
use epochguard.Decision.Binding.{BindingError, BoundDecision, resolve_bound_decision}
use epochguard.Decision.Bound.{IsBound, resolve_bound_decision-IsBound}
use epochguard.Verdict.{authoritative_verdict}
use epochguard.Validator.{
  ResolvedInterval, ResourceVersionResolution, ValidationOptions, effective_end, check_version,
  resolve_interval, map_intervals, resolve_intervals, lookup_of, lift_binding,
}

-- The checks of a version that passed: it is what the Receipt observed, and was valid then.
pub record IsVerified (p : Platform) (head : ℕ) (r : ObservationReceipt) (v : ResourceVersion)
    : Type 0 where
  pub revision : v.source_revision ≡ r.source_revision
  pub observed_hash : v.value_hash ≡ r.value_hash
  pub hash : v.value_hash ≡ value_digest p v.value
  pub observed_from : v.valid_from_seq ≤ r.observed_at_seq
  pub observed_before : r.observed_at_seq < effective_end head v.valid_until_seq
  pub observed_by : r.observed_at_seq ≤ head
  pub ended : (u : ℕ) → v.valid_until_seq ≡ some u → u ≤ head

module _ (p : Platform) (head : ℕ) (r : ObservationReceipt) where
  check_version-IsVerified :
      (c : ResourceVersionResolution) (v : ResourceVersion)
      → check_version p head r c ≡ ok v
      → IsVerified p head r v
        × (c.resource_version ≡ v)
        × (c.source ≡ r.source)
        × (c.entity_key ≡ r.entity_key)
  unfolding check_version
  check_version-IsVerified c v h =
      let verified : IsVerified p head r c.resource_version = record {
        revision = eq_of_bne c.resource_version.source_revision r.source_revision (ground arith);
        observed_hash = eq_of_bne c.resource_version.value_hash r.value_hash (ground arith);
        hash =
            ground (
              arith,
              eq_iff c.resource_version.value_hash (value_digest p c.resource_version.value),
            );
        observed_from = ground arith;
        observed_before = ground arith;
        observed_by = ground arith;
        ended = λ u e. ground arith;
      } in
      let same : c.resource_version ≡ v = ground arith in
      (
        rw (← same) verified,
        same,
        eq_of_bne c.source r.source (ground arith),
        eq_of_bne c.entity_key r.entity_key (ground arith),
      )

-- What stands behind one resolved interval of a session at a head: the bindings of its Decision, and
-- the version that the resolver answers for the Receipt that the Decision names.
pub record IsResolved (p : Platform) (db : EpochDatabase) (s : EpochSession) (head : ℕ)
    (options : ValidationOptions) (i : ResolvedInterval) : Type 0 where
  pub bound : BoundDecision
  pub bindings : resolve_bound_decision p db s i.decision ≡ ok bound
  pub checked : IsBound p db s i.decision bound
  pub candidate : ResourceVersionResolution
  pub answered : options.resolve_resource_version (lookup_of p head i.receipt) ≡ some candidate
  pub version : candidate.resource_version ≡ i.version
  pub same_source : candidate.source ≡ i.receipt.source
  pub same_entity : candidate.entity_key ≡ i.receipt.entity_key
  pub receipt : i.receipt ≡ bound.receipt
  pub verified : IsVerified p head i.receipt i.version
  pub end : i.effective_until ≡ effective_end head i.version.valid_until_seq
  pub role : i.role ≡ i.decision.role
  pub owner : i.owner_agent_id ≡ i.decision.agent_id
  pub authoritative :
      authoritative_verdict i.decision.role s.action i.version.value ≡ some i.decision.verdict

lift_binding-eq-ok : {A : Type 0} (m : Result _ A) (a : A) → lift_binding m ≡ ok a → m ≡ ok a
lift_binding-eq-ok (ok b) a h = ground arith
lift_binding-eq-ok (err (BindingError.failed f)) a h = cc
lift_binding-eq-ok (err BindingError.malformed) a h = cc

module _ (p : Platform) (db : EpochDatabase) (s : EpochSession) (head : ℕ)
    (options : ValidationOptions) where
  -- The four steps of a round that returns.
  round_steps :
      (d : DependencyCertificate) (i : ResolvedInterval)
      → resolve_interval p db s head options d ≡ ok i
      → (b : BoundDecision) × (c : ResourceVersionResolution) × (resolve_bound_decision p db s d
          ≡ ok b)
        × (options.resolve_resource_version (lookup_of p head b.receipt) ≡ some c)
        × (check_version p head b.receipt c ≡ ok i.version)
        × (authoritative_verdict d.role s.action i.version.value ≡ some d.verdict)
        × (i.decision ≡ d)
        × (i.receipt ≡ b.receipt)
        × (i.role ≡ d.role)
        × (i.owner_agent_id ≡ d.agent_id)
        × (i.effective_until ≡ effective_end head i.version.valid_until_seq)
  unfolding resolve_interval
  round_steps d i h = elim (Result-cases (lift_binding (resolve_bound_decision p db s d))) [
    | inr (_, e) ↦ absurd (ground arith)
    | inl (b, bound) ↦
        elim (Option-cases (options.resolve_resource_version (lookup_of p head b.receipt))) [
          | inl e ↦ absurd (ground arith)
          | inr (c, found) ↦ elim (Result-cases (check_version p head b.receipt c)) [
            | inr (_, e) ↦ absurd (ground arith)
            | inl (v, checked) ↦
                elim (Option-cases (authoritative_verdict d.role s.action v.value)) [
                  | inl e ↦ absurd (ground arith)
                  | inr (verdict, judged) ↦
                      let agrees : d.verdict ≡ verdict =
                        (verdict_eq.beq_iff d.verdict verdict).0 (ground arith) in
                      (
                        b,
                        c,
                        lift_binding-eq-ok _ b bound,
                        found,
                        ground arith,
                        ground arith,
                        ground arith,
                        ground arith,
                        ground arith,
                        ground arith,
                        ground arith,
                      )
                ]
          ]
        ]
  ]

  resolve_interval-IsResolved :
      (d : DependencyCertificate) (i : ResolvedInterval)
      → resolve_interval p db s head options d ≡ ok i
      → IsResolved p db s head options i
  resolve_interval-IsResolved d i h =
      let (b, c, bound, answered, checked, judged, same, receipt, role, owner, end) =
        round_steps d i h in
      let (verified, version, source, entity) =
        check_version-IsVerified p head b.receipt c i.version checked in
      record {
        bound = b;
        bindings = rw same bound;
        checked = rw same (resolve_bound_decision-IsBound p db s d b bound);
        candidate = c;
        answered = rw receipt answered;
        version = version;
        same_source = rw receipt source;
        same_entity = rw receipt entity;
        receipt = receipt;
        verified = rw receipt verified;
        end = end;
        role = rw same role;
        owner = rw same owner;
        authoritative = rw same judged;
      }

  map_intervals-IsResolved :
      (ds : List DependencyCertificate) (is : List ResolvedInterval)
      → map_intervals p db s head options ds ≡ ok is
      → All (IsResolved p db s head options) is × (map (λ i. i.decision) is ≡ ds)
  unfolding map_intervals
  map_intervals-IsResolved [] [] h = (tt, refl)
  map_intervals-IsResolved [] (i ∷ is) h = cc
  map_intervals-IsResolved (d ∷ ds) is h =
      elim (Result-cases (resolve_interval p db s head options d)) [
        | inr (_, e) ↦ absurd (ground arith)
        | inl (i, e) ↦ elim (Result-cases (map_intervals p db s head options ds)) [
          | inr (_, e') ↦ absurd (ground arith)
          | inl (rest, e') ↦
              let same : i ∷ rest ≡ is = ground arith in
              let (_, _, _, _, _, _, decided, _, _, _, _) = round_steps d i e in
              let (resolved, order) = map_intervals-IsResolved ds rest e' in
              rw (← same) ((resolve_interval-IsResolved d i e, resolved), cc)
        ]
      ]

  -- The intervals that are returned are resolved, stand for the Decisions in their order, and are
  -- not empty.
  pub resolve_intervals-IsResolved :
      (ds : List DependencyCertificate) (is : List ResolvedInterval)
      → resolve_intervals p db s ds head options ≡ ok is
      → All (IsResolved p db s head options) is × (map (λ i. i.decision) is ≡ ds) × (1 ≤ length is)
  unfolding resolve_intervals
  resolve_intervals-IsResolved ds is h =
      elim (Result-cases (map_intervals p db s head options ds)) [
        | inr (_, e) ↦ absurd (ground arith)
        | inl (js, e) ↦
            let same : js ≡ is = ground arith in
            let (resolved, order) = map_intervals-IsResolved ds js e in
            rw (← same) (resolved, order, three_of js (ground arith))
      ]
    where
      three_of :
          (js : List ResolvedInterval)
          → nat_beq (length (distinct (map (λ i. i.receipt.receipt_id) js))) 3 ≡ true
          → 1 ≤ length js
      three_of [] e = cc
      three_of (j ∷ js) e = omega arith
