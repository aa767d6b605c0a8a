-- ===== src/Validator/Outcome.antt =====
-- The second half of `validateJointValidity` in
-- apps/server/src/epochguard/joint-validity-validator.ts: bounds, witnesses, outcome and records.
use epochguard.Prelude.{
  ℕ, String, Bool, true, false, not, Option, none, some, List, [], ◌∷◌, map, min, max, leb, ◌==◌,
  string_eq, nat_eq, str_lt, filter, any, distinct, sort, length, ok, ◌>>=◌, ◌>>◌, throw_if,
  require, if◌then◌else◌,
}
use epochguard.Platform.{Platform}
use epochguard.Contract.Json.{receipt_set_hash}
use epochguard.Contract.States.{Verdict, verdict_eq}
use epochguard.Contract.RecordStates.{FailureCode, ValidationOutcome}
use epochguard.Contract.Identifiers.{max_safe_integer}
use epochguard.Contract.Records.{EpochSession}
use epochguard.Contract.Database.{
  DecisionIds, ValidationRecord, CertificateInterval, JointValidityCertificate, NoCutProof,
  EpochDatabase,
}
use epochguard.Contract.EvidenceSchemas.{validation_schema, certificate_schema, no_cut_schema}
use epochguard.Validator.{
  ResolvedInterval, ValidationOptions, ValidationResult, Validated, failed, malformed,
  interval_covers_head, active_decision_tuple, resolve_intervals,
}

-- `Math.max` and `Math.min` of a list that is not empty.
unfoldable pub list_max : List ℕ → ℕ
list_max [] = 0
list_max (n ∷ []) = n
list_max (n ∷ m ∷ ns) = max n (list_max (m ∷ ns))

unfoldable pub list_min : List ℕ → ℕ
list_min [] = 0
list_min (n ∷ []) = n
list_min (n ∷ m ∷ ns) = min n (list_min (m ∷ ns))

unfoldable pub lower_bound : List ResolvedInterval → ℕ
unfolding list_max
lower_bound is = list_max (map (λ i. i.version.valid_from_seq) is)

unfoldable pub upper_bound : List ResolvedInterval → ℕ
unfolding list_min
upper_bound is = list_min (map (λ i. i.effective_until) is)

abbrev pub is_stale : ℕ → ResolvedInterval → Bool
is_stale head i = not (interval_covers_head head i)

-- `currentInvalidAgentIds`
unfoldable pub current_invalid_agents : ℕ → List ResolvedInterval → List String
unfolding sort str_lt
current_invalid_agents head is =
    sort str_lt (distinct (map (λ i. i.owner_agent_id) (filter (is_stale head) is)))

abbrev pub receipt_lt : ResolvedInterval → ResolvedInterval → Bool
receipt_lt a b = str_lt a.receipt.receipt_id b.receipt.receipt_id

-- `xs[0]`
abbrev pub first : {A : Type 0} → List A → Option A
first [] = none
first (x ∷ xs) = some x

unfoldable pub earliest_ending : List ResolvedInterval → Option ResolvedInterval
unfolding upper_bound sort str_lt
earliest_ending is = first (sort receipt_lt (filter (λ i. i.effective_until == upper_bound is) is))

unfoldable pub latest_starting : List ResolvedInterval → Option ResolvedInterval
unfolding lower_bound sort str_lt
latest_starting is =
    first (sort receipt_lt (filter (λ i. i.version.valid_from_seq == lower_bound is) is))

abbrev pub certificate_interval : ResolvedInterval → CertificateInterval
certificate_interval i = record {
  receipt_id = i.receipt.receipt_id;
  source = i.receipt.source;
  source_revision = i.receipt.source_revision;
  from = i.version.valid_from_seq;
  until = i.version.valid_until_seq;
}

-- What the records of one validation share.
pub record ValidationScope : Type 0 where
  pub session : EpochSession
  pub ids : DecisionIds
  pub head : ℕ
  pub intervals : List ResolvedInterval
  pub options : ValidationOptions

module _ (p : Platform) where
  abbrev pub scope_hash : ValidationScope → String
  scope_hash c = receipt_set_hash p (map (λ i. i.receipt.receipt_id) c.intervals)

  -- The argument of makeValidationRecord
  abbrev pub validation_record :
      ValidationScope → ValidationOutcome → Option String → Option String → ValidationRecord
  validation_record c outcome certificate_id proof_id = record {
    validation_id = c.options.validation_id;
    session_id = c.session.session_id;
    action_hash = c.session.action_hash;
    base_session_revision = c.session.session_revision;
    decision_certificate_ids = c.ids;
    dependency_set_hash = scope_hash c;
    validated_head = c.head;
    outcome = outcome;
    lower_bound = some (lower_bound c.intervals);
    upper_bound = some (upper_bound c.intervals);
    joint_validity_certificate_id = certificate_id;
    no_cut_proof_id = proof_id;
    refresh_plan_id = none;
    verification_latency_ms = c.options.verification_latency_ms;
    created_at = c.options.created_at;
  }

  abbrev pub no_cut_record :
      ValidationScope → ResolvedInterval → ResolvedInterval → List String → NoCutProof
  no_cut_record c earliest latest agents = record {
    proof_id = c.options.no_cut_proof_id;
    validation_id = c.options.validation_id;
    session_id = c.session.session_id;
    action_hash = c.session.action_hash;
    dependency_set_hash = scope_hash c;
    decision_certificate_ids = c.ids;
    validated_at_head = c.head;
    lower_bound = lower_bound c.intervals;
    upper_bound = upper_bound c.intervals;
    latest_starting_receipt_id = latest.receipt.receipt_id;
    earliest_ending_receipt_id = earliest.receipt.receipt_id;
    conflict_witness_receipt_ids = (earliest.receipt.receipt_id, latest.receipt.receipt_id);
    refresh_agent_ids = agents;
    created_at = c.options.created_at;
  }

  abbrev pub certificate_record : ValidationScope → JointValidityCertificate
  certificate_record c = record {
    certificate_id = c.options.joint_validity_certificate_id;
    validation_id = c.options.validation_id;
    session_id = c.session.session_id;
    action_hash = c.session.action_hash;
    dependency_set_hash = scope_hash c;
    validated_at_head = c.head;
    selected_cut_seq = c.head;
    current_head_covered = true;
    decision_certificate_ids = c.ids;
    intervals = map certificate_interval c.intervals;
    created_at = c.options.created_at;
  }

  -- The branch without a common cut.
  unfoldable pub no_cut_result : ValidationScope → List String → Validated ValidationResult
  no_cut_result c agents = do
    throw_if (elim agents [ [] ↦ true | _ ↦ false ]) (failed FailureCode.history_unverifiable)
    earliest ← require (earliest_ending c.intervals) (failed FailureCode.history_unverifiable)
    latest ← require (latest_starting c.intervals) (failed FailureCode.history_unverifiable)
    let proof = no_cut_record c earliest latest agents
    throw_if (not (no_cut_schema p proof)) malformed
    let entry =
        validation_record c ValidationOutcome.no_valid_observed_world_cut none
          (some c.options.no_cut_proof_id)
    throw_if (not (validation_schema p entry)) malformed
    let result : ValidationResult = record {
      validation_record = entry;
      joint_validity_certificate = none;
      no_cut_proof = some proof;
      current_invalid_agent_ids = agents;
    }
    ok result

  -- The branch with a common cut in the past only.
  unfoldable pub historical_result : ValidationScope → List String → Validated ValidationResult
  historical_result c agents = do
    let entry = validation_record c ValidationOutcome.historical_but_stale_now none none
    throw_if (not (validation_schema p entry)) malformed
    let result : ValidationResult = record {
      validation_record = entry;
      joint_validity_certificate = none;
      no_cut_proof = none;
      current_invalid_agent_ids = agents;
    }
    ok result

  abbrev pub current_outcome : List ResolvedInterval → ValidationOutcome
  current_outcome is =
      if any (λ i. i.decision.verdict == Verdict.deny) is
      then ValidationOutcome.consistent_deny
      else ValidationOutcome.valid_current_allow

  -- The branch in which the head itself is a common cut.
  unfoldable pub current_result : ValidationScope → List String → Validated ValidationResult
  current_result c agents = do
    let certificate = certificate_record c
    throw_if (not (certificate_schema p certificate)) malformed
    let entry =
        validation_record c (current_outcome c.intervals)
          (some c.options.joint_validity_certificate_id) none
    throw_if (not (validation_schema p entry)) malformed
    let result : ValidationResult = record {
      validation_record = entry;
      joint_validity_certificate = some certificate;
      no_cut_proof = none;
      current_invalid_agent_ids = agents;
    }
    ok result

  -- The three branches, once the intervals are resolved.
  unfoldable pub classify : ValidationScope → Validated ValidationResult
  classify c =
      let agents = current_invalid_agents c.head c.intervals in
      if leb (upper_bound c.intervals) (lower_bound c.intervals)
      then no_cut_result c agents
      else if leb 1 (length agents)
      then historical_result c agents
      else current_result c agents

  -- validateJointValidity
  unfoldable pub validate_joint_validity :
      EpochDatabase → String → ValidationOptions → Validated ValidationResult
  validate_joint_validity db session_id options = do
    throw_if (leb max_safe_integer db.head_seq) (failed FailureCode.history_unverifiable)
    found ← active_decision_tuple db session_id
    is ← resolve_intervals p db found.0 found.2 db.head_seq options
    let scope : ValidationScope = record {
      session = found.0;
      ids = found.1;
      head = db.head_seq;
      intervals = is;
      options = options;
    }
    classify scope
