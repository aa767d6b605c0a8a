-- ===== src/Decision/Envelope.antt =====
-- The envelope of a decision, `parseDecisionEnvelope` of
-- apps/server/src/epochguard/decision-parser.ts, and AgentDecisionEnvelopeSchema of types.ts.
use epochguard.Prelude.{
  ℕ, zero, suc, ◌+◌, ◌-◌, ◌≡◌, refl, String, Bool, true, false, not, ◌&&◌, ◌||◌, Option, none, some,
  List, [], ◌∷◌, ◌++◌, ltb, length, includes, codes, nat_beq, ◌==◌, string_eq, nat_eq, ◌!=◌, Eq,
  eq_by_index, get_or, Result, ok, err, ◌>>=◌, ◌>>◌, throw_if, require, if◌then◌else◌,
}
use epochguard.Platform.{Platform}
use epochguard.Contract.Values.{JsonValue, JsonFields}
use epochguard.Contract.States.{Role, Verdict}
use epochguard.Contract.Identifiers.{
  is_opaque_id, is_sha256_digest, is_short_text, after_prefix, between,
}
use epochguard.Contract.Schemas.{is_nonce}

-- AgentDecisionEnvelope
pub record AgentDecisionEnvelope : Type 0 where
  pub session_id : String
  pub action_hash : String
  pub run_assignment_id : String
  pub role : Role
  pub receipt_id : String
  pub nonce : String
  pub verdict : Verdict
  pub reason : String

-- The messages of parseDecisionEnvelope; the reason of each is OUTPUT_MALFORMED.
pub data EnvelopeError : Type 0 where
  too_large marker_count free_text invalid_json not_envelope : EnvelopeError

abbrev pub envelope_errors : List EnvelopeError
envelope_errors =
    EnvelopeError.too_large ∷ EnvelopeError.marker_count ∷ EnvelopeError.free_text
    ∷ EnvelopeError.invalid_json ∷ EnvelopeError.not_envelope ∷ []

abbrev pub envelope_error_index : EnvelopeError → ℕ
envelope_error_index EnvelopeError.too_large = 0
envelope_error_index EnvelopeError.marker_count = 1
envelope_error_index EnvelopeError.free_text = 2
envelope_error_index EnvelopeError.invalid_json = 3
envelope_error_index EnvelopeError.not_envelope = 4

pub envelope_errors-envelope_error_index :
    (e : EnvelopeError)
    → get_or envelope_errors (envelope_error_index e) EnvelopeError.too_large ≡ e
envelope_errors-envelope_error_index EnvelopeError.too_large = refl
envelope_errors-envelope_error_index _ = refl

instance abbrev pub envelope_error_eq : Eq EnvelopeError
envelope_error_eq =
    eq_by_index envelope_errors envelope_error_index EnvelopeError.too_large
      envelope_errors-envelope_error_index

-- EPOCH_DECISION_OPEN_MARKER and EPOCH_DECISION_CLOSE_MARKER
abbrev pub open_marker : List ℕ
open_marker = codes "<EPOCH_DECISION>"

abbrev pub close_marker : List ℕ
close_marker = codes "</EPOCH_DECISION>"

-- MAX_DECISION_OUTPUT_BYTES
abbrev pub max_output_bytes : ℕ
max_output_bytes = 16384

-- `Buffer.byteLength(text, "utf8")`
unfoldable pub utf8_length : List ℕ → ℕ
utf8_length [] = 0
utf8_length (c ∷ cs) =
    (if ltb c 128 then 1 else if ltb c 2048 then 2 else if ltb c 65536 then 3 else 4)
    + utf8_length cs

abbrev pub is_match : Option (List ℕ) → Bool
is_match none = false
is_match (some _) = true

-- countLiteral: after a match the search goes on behind it; `skip` counts what is still to pass.
unfoldable pub count_literal : List ℕ → ℕ → List ℕ → ℕ
count_literal literal skip [] = 0
count_literal literal (suc skip) (c ∷ cs) = count_literal literal skip cs
count_literal literal zero (c ∷ cs) = elim (is_match (after_prefix literal (c ∷ cs))) [
  | true ↦ suc (count_literal literal (length literal - 1) cs)
  | false ↦ count_literal literal zero cs
]

-- What `trim` removes: white space and line terminators.
abbrev pub is_white_space : ℕ → Bool
is_white_space c =
    between 9 13 c
    || between 8192 8202 c
    || includes (32 ∷ 160 ∷ 5760 ∷ 8232 ∷ 8233 ∷ 8239 ∷ 8287 ∷ 12288 ∷ 65279 ∷ []) c

unfoldable pub trim_start : List ℕ → List ℕ
trim_start [] = []
trim_start (c ∷ cs) = elim (is_white_space c) [ true ↦ trim_start cs | false ↦ c ∷ cs ]

unfoldable pub reversed : List ℕ → List ℕ
reversed [] = []
reversed (c ∷ cs) = reversed cs ++ c ∷ []

unfoldable pub trim : List ℕ → List ℕ
trim cs = reversed (trim_start (reversed (trim_start cs)))

-- The text between the markers, if it begins and ends with them. They cannot overlap, so what
-- `slice` keeps is what is left of both.
unfoldable pub between_markers : List ℕ → Option (List ℕ)
between_markers cs = elim (after_prefix open_marker cs) [
  | none ↦ none
  | some rest ↦ elim (after_prefix (reversed close_marker) (reversed rest)) [
    | none ↦ none
    | some inner ↦ some (reversed inner)
  ]
]

-- The value of a key of an object, and its keys.
unfoldable pub value_at : String → JsonFields → Option JsonValue
value_at k JsonFields.end = none
value_at k (JsonFields.field name v rest) =
    let later = value_at k rest in if name == k then some v else later

unfoldable pub only_keys : List String → JsonFields → Bool
only_keys keys JsonFields.end = true
only_keys keys (JsonFields.field name v rest) = includes keys name && only_keys keys rest

abbrev pub text_of : Option JsonValue → Option String
text_of (some (JsonValue.text t)) = some t
text_of _ = none

abbrev pub is_one : Option JsonValue → Bool
is_one (some (JsonValue.number n)) = nat_beq n 1
is_one _ = false

abbrev pub role_of : String → Option Role
role_of t =
    if t == "inventory"
    then some Role.inventory
    else if t == "budget"
    then some Role.budget
    else if t == "policy"
    then some Role.policy
    else none

abbrev pub verdict_of : String → Option Verdict
verdict_of t =
    if t == "ALLOW" then some Verdict.allow else if t == "DENY" then some Verdict.deny else none

abbrev pub envelope_keys : List String
envelope_keys =
    "schemaVersion" ∷ "sessionId" ∷ "actionHash" ∷ "runAssignmentId" ∷ "role" ∷ "receiptId"
    ∷ "nonce" ∷ "verdict" ∷ "reason" ∷ []

abbrev pub Enveloped : Type 0 → Type 0
Enveloped A = Result EnvelopeError A

-- AgentDecisionEnvelopeSchema beyond the shape
abbrev pub envelope_valid : Platform → AgentDecisionEnvelope → Bool
envelope_valid p e =
    is_opaque_id e.session_id
    && is_sha256_digest e.action_hash
    && is_opaque_id e.run_assignment_id
    && is_opaque_id e.receipt_id
    && is_nonce p e.nonce
    && is_short_text 1000 e.reason

module _ (p : Platform) where
  abbrev pub text_field : String → JsonFields → Enveloped String
  text_field k fs = require (text_of (value_at k fs)) EnvelopeError.not_envelope

  -- AgentDecisionEnvelopeSchema.safeParse of an object
  unfoldable pub envelope_of_fields : JsonFields → Enveloped AgentDecisionEnvelope
  envelope_of_fields fs = do
    throw_if (not (only_keys envelope_keys fs)) EnvelopeError.not_envelope
    throw_if (not (is_one (value_at "schemaVersion" fs))) EnvelopeError.not_envelope
    session ← text_field "sessionId" fs
    action ← text_field "actionHash" fs
    assignment ← text_field "runAssignmentId" fs
    role_text ← text_field "role" fs
    role ← require (role_of role_text) EnvelopeError.not_envelope
    receipt ← text_field "receiptId" fs
    nonce ← text_field "nonce" fs
    verdict_text ← text_field "verdict" fs
    verdict ← require (verdict_of verdict_text) EnvelopeError.not_envelope
    reason ← text_field "reason" fs
    let e : AgentDecisionEnvelope = record {
      session_id = session;
      action_hash = action;
      run_assignment_id = assignment;
      role = role;
      receipt_id = receipt;
      nonce = nonce;
      verdict = verdict;
      reason = reason;
    }
    throw_if (not (envelope_valid p e)) EnvelopeError.not_envelope
    ok e

  abbrev pub envelope_of : JsonValue → Enveloped AgentDecisionEnvelope
  envelope_of (JsonValue.object fs) = envelope_of_fields fs
  envelope_of _ = err EnvelopeError.not_envelope

  -- parseDecisionEnvelope; `parse_json` is JSON.parse on the code points of a text, `none` its
  -- SyntaxError.
  unfoldable pub parse_decision_envelope :
      (List ℕ → Option JsonValue) → String → Enveloped AgentDecisionEnvelope
  parse_decision_envelope parse_json raw = do
    let cs = codes raw
    throw_if (ltb max_output_bytes (utf8_length cs)) EnvelopeError.too_large
    throw_if (count_literal open_marker 0 cs != 1 || count_literal close_marker 0 cs != 1)
        EnvelopeError.marker_count
    inner ← require (between_markers (trim cs)) EnvelopeError.free_text
    j ← require (parse_json (trim inner)) EnvelopeError.invalid_json
    envelope_of j
