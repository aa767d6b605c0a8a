-- ===== src/Validator.antt =====
-- The joint-validity validator, apps/server/src/epochguard/joint-validity-validator.ts. The proofs
-- are in the modules below.
pub mod Outcome
pub mod Guarantees
pub mod Soundness
pub mod Branches
pub mod Cuts
pub mod Evidence
pub mod Active
use epochguard.Prelude.{
  ℕ, ◌+◌, String, Bool, true, false, not, ◌&&◌, ◌||◌, Option, none, some, List, [], ◌∷◌, map, min,
  max, leb, ltb, ◌==◌, ◌!=◌, string_eq, nat_eq, option_eq, is_null, str_lt, filter, any, every,
  distinct, sort, length, nat_beq, single, Result, ok, err, ◌>>=◌, ◌>>◌, throw_if, require,
  if◌then◌else◌,
}
use epochguard.Platform.{Platform}
use epochguard.Contract.Json.{value_digest, receipt_set_hash}
use epochguard.Contract.States.{Role, Source, Verdict, role_eq, verdict_eq}
use epochguard.Contract.RecordStates.{FailureCode, ValidationOutcome}
use epochguard.Contract.Identifiers.{max_safe_integer}
use epochguard.Contract.Records.{
  ResourceVersion, ObservationReceipt, DependencyCertificate, EpochSession, RoleIds,
}
use epochguard.Contract.Database.{
  DecisionIds, decision_id_list, ValidationRecord, CertificateInterval, JointValidityCertificate,
  NoCutProof, EpochDatabase,
}
use epochguard.Contract.Schemas.{version_schema}
use epochguard.Contract.EvidenceSchemas.{validation_schema, certificate_schema, no_cut_schema}
use epochguard.Decision.Binding.{BindingError, BoundDecision, resolve_bound_decision}
use epochguard.Verdict.{authoritative_verdict}

-- JointValidityValidationError: a reason, or the authoritative verdict mismatch of a role, or a
-- Zod error.
pub data ValidationError : Type 0 where
  failed : FailureCode → ValidationError
  verdict_mismatch : Role → ValidationError
  malformed : ValidationError

abbrev pub Validated : Type 0 → Type 0
Validated A = Result ValidationError A

-- ResourceVersionLookup
pub record ResourceVersionLookup : Type 0 where
  pub receipt_id : String
  pub source : Source
  pub entity_key : String
  pub source_revision : ℕ
  pub value_hash : String
  pub observed_at_seq : ℕ
  pub validated_at_head : ℕ

-- ResourceVersionResolution
pub record ResourceVersionResolution : Type 0 where
  pub source : Source
  pub entity_key : String
  pub resource_version : ResourceVersion

-- JointValidityValidationOptions after the defaults (randomUUID, the clock, 0) are filled in. A
-- resolver that throws and one that returns null are both `none`: the validator treats them alike.
pub record ValidationOptions : Type 0 where
  pub resolve_resource_version : ResourceVersionLookup → Option ResourceVersionResolution
  pub validation_id : String
  pub joint_validity_certificate_id : String
  pub no_cut_proof_id : String
  pub created_at : String
  pub verification_latency_ms : ℕ

-- JointValidityValidationResult
pub record ValidationResult : Type 0 where
  pub validation_record : ValidationRecord
  pub joint_validity_certificate : Option JointValidityCertificate
  pub no_cut_proof : Option NoCutProof
  pub current_invalid_agent_ids : List String

-- ResolvedInterval
pub record ResolvedInterval : Type 0 where
  pub role : Role
  pub owner_agent_id : String
  pub decision : DependencyCertificate
  pub receipt : ObservationReceipt
  pub version : ResourceVersion
  pub effective_until : ℕ

abbrev pub unless_unique : {A : Type 0} → List A → (A → Bool) → Validated A
unless_unique xs p = require (single (filter p xs)) (failed FailureCode.decision_invalid)

-- intervalCoversHead
abbrev pub interval_covers_head : ℕ → ResolvedInterval → Bool
interval_covers_head head i =
    leb i.version.valid_from_seq head
    && elim i.version.valid_until_seq [ none ↦ true | some until ↦ ltb head until ]

-- Three ids, none of which is null.
abbrev pub all_ids : Option String → Option String → Option String → Option DecisionIds
all_ids (some i) (some b) (some q) = some (record { inventory = i; budget = b; policy = q })
all_ids _ _ _ = none

abbrev pub active_ids : RoleIds → Option DecisionIds
active_ids r = all_ids r.inventory r.budget r.policy

-- The Decision of one role in activeDecisionTuple.
unfoldable pub active_decision : EpochDatabase → String → Role → Validated DependencyCertificate
active_decision db id role = do
  d ← unless_unique db.decisions (λ c. c.certificate_id == id)
  throw_if (d.role != role) (failed FailureCode.decision_invalid)
  ok d

-- activeDecisionTuple
unfoldable pub active_decision_tuple :
    EpochDatabase → String → Validated (EpochSession × DecisionIds × List DependencyCertificate)
unfolding active_decision
active_decision_tuple db session_id = do
  s ← unless_unique db.sessions (λ c. c.session_id == session_id)
  ids ← require (active_ids s.active_decision_certificate_ids) (failed FailureCode.decision_invalid)
  throw_if (length (distinct (decision_id_list ids)) != 3) (failed FailureCode.decision_invalid)
  i ← active_decision db ids.inventory Role.inventory
  b ← active_decision db ids.budget Role.budget
  q ← active_decision db ids.policy Role.policy
  ok (s, ids, i ∷ b ∷ q ∷ [])

abbrev pub lift_binding : {A : Type 0} → Result BindingError A → Validated A
lift_binding (ok a) = ok a
lift_binding (err (BindingError.failed reason)) = err (failed reason)
lift_binding (err BindingError.malformed) = err malformed

-- `version.validUntilSeq ?? head + 1`
abbrev pub effective_end : ℕ → Option ℕ → ℕ
effective_end head none = head + 1
effective_end head (some until) = until

abbrev pub ends_after : ℕ → Option ℕ → Bool
ends_after head none = false
ends_after head (some until) = ltb head until

module _ (p : Platform) where
  -- The checks of the authoritative version behind one Receipt.
  unfoldable pub check_version :
      ℕ → ObservationReceipt → ResourceVersionResolution → Validated ResourceVersion
  check_version head r c = do
    throw_if (c.source != r.source || c.entity_key != r.entity_key)
        (failed FailureCode.binding_mismatch)
    let v = c.resource_version
    throw_if (not (version_schema p v)) (failed FailureCode.history_unverifiable)
    throw_if (v.source_revision != r.source_revision) (failed FailureCode.history_unverifiable)
    throw_if (v.value_hash != r.value_hash) (failed FailureCode.binding_mismatch)
    throw_if (v.value_hash != value_digest p v.value) (failed FailureCode.history_unverifiable)
    throw_if (ends_after head v.valid_until_seq) (failed FailureCode.history_unverifiable)
    throw_if
        (ltb r.observed_at_seq v.valid_from_seq
          || leb (effective_end head v.valid_until_seq) r.observed_at_seq
          || ltb head r.observed_at_seq)
        (failed FailureCode.history_unverifiable)
    ok v

  abbrev pub lookup_of : ℕ → ObservationReceipt → ResourceVersionLookup
  lookup_of head r = record {
    receipt_id = r.receipt_id;
    source = r.source;
    entity_key = r.entity_key;
    source_revision = r.source_revision;
    value_hash = r.value_hash;
    observed_at_seq = r.observed_at_seq;
    validated_at_head = head;
  }

  -- One round of the map in resolveIntervals.
  unfoldable pub resolve_interval :
      EpochDatabase
      → EpochSession
      → ℕ
      → ValidationOptions
      → DependencyCertificate
      → Validated ResolvedInterval
  resolve_interval db s head options d = do
    bound ← lift_binding (resolve_bound_decision p db s d)
    candidate ←
        require (options.resolve_resource_version (lookup_of head bound.receipt))
          (failed FailureCode.history_unverifiable)
    v ← check_version head bound.receipt candidate
    verdict ←
        require (authoritative_verdict d.role s.action v.value)
          (failed FailureCode.history_unverifiable)
    throw_if (d.verdict != verdict) (verdict_mismatch d.role)
    ok (record {
      role = d.role;
      owner_agent_id = d.agent_id;
      decision = d;
      receipt = bound.receipt;
      version = v;
      effective_until = effective_end head v.valid_until_seq;
    })

  unfoldable pub map_intervals :
      EpochDatabase
      → EpochSession
      → ℕ
      → ValidationOptions
      → List DependencyCertificate
      → Validated (List ResolvedInterval)
  map_intervals db s head options [] = ok []
  map_intervals db s head options (d ∷ ds) = do
    i ← resolve_interval db s head options d
    is ← map_intervals db s head options ds
    ok (i ∷ is)

  -- resolveIntervals
  unfoldable pub resolve_intervals :
      EpochDatabase
      → EpochSession
      → List DependencyCertificate
      → ℕ
      → ValidationOptions
      → Validated (List ResolvedInterval)
  unfolding map_intervals
  resolve_intervals db s ds head options = do
    is ← map_intervals db s head options ds
    throw_if (length (distinct (map (λ i. i.receipt.receipt_id) is)) != 3)
        (failed FailureCode.decision_invalid)
    ok is
