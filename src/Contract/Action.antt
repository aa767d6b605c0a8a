-- ===== src/Contract/Action.antt =====
-- Actions and role queries of apps/server/src/epochguard/types.ts: their schemas, canonical forms
-- and hashes. Fields whose schema is a literal (schemaVersion, type, market) have no entry.
use epochguard.Prelude.{
  ℕ, String, Bool, ◌&&◌, leb, concat, ◌==◌, string_eq, Result, ok, ◌>>=◌, ◌>>◌, throw_if, not,
}
use epochguard.Platform.{Platform}
use epochguard.Contract.States.{Role}
use epochguard.Contract.Values.{JsonValue, JsonFields}
use epochguard.Contract.Json.{value_digest, canonical_json}
use epochguard.Contract.Identifiers.{is_opaque_id, is_sha256_digest, is_short_text, is_safe}

-- ActionIntent
pub record ActionIntent : Type 0 where
  pub campaign_id : String
  pub requested_units : ℕ
  pub estimated_cost_cents : ℕ
  pub action_id : String
  pub session_id : String
  pub action_hash : String
  pub idempotency_key : String

-- ActionCanonicalFieldsSchema
unfoldable pub action_fields_schema : ActionIntent → Bool
unfolding is_opaque_id
action_fields_schema a =
    is_opaque_id a.campaign_id
    && leb 1 a.requested_units
    && is_safe a.requested_units
    && is_safe a.estimated_cost_cents

-- The object that canonicalizeAction passes to canonicalJson.
abbrev pub action_json : ActionIntent → JsonValue
action_json a = JsonValue.object (
    JsonFields.field "schemaVersion" (JsonValue.number 1) (
      JsonFields.field "type" (JsonValue.text "PUBLISH_CAMPAIGN") (
        JsonFields.field "campaignId" (JsonValue.text a.campaign_id) (
          JsonFields.field "requestedUnits" (JsonValue.number a.requested_units) (
            JsonFields.field "estimatedCostCents" (JsonValue.number a.estimated_cost_cents)
              (JsonFields.field "market" (JsonValue.text "SG") JsonFields.end))))))

-- `actionHash` once its parse has passed.
unfoldable pub action_digest : Platform → ActionIntent → String
unfolding value_digest
action_digest p a = value_digest p (action_json a)

-- actionHash: the parse in canonicalizeAction throws on a malformed action.
unfoldable pub action_hash : {E : Type 0} → Platform → E → ActionIntent → Result E String
unfolding action_digest
action_hash p e a = do throw_if (not (action_fields_schema a)) e; ok (action_digest p a)

-- `${sessionId}:${actionHash}`
abbrev pub idempotency_scope : String → String → String
idempotency_scope session hash = concat session (concat ":" hash)

-- ActionIntentSchema, its superRefine included
unfoldable pub action_schema : Platform → ActionIntent → Bool
unfolding action_fields_schema is_opaque_id is_sha256_digest is_short_text action_digest
action_schema p a =
    action_fields_schema a
    && is_opaque_id a.action_id
    && is_opaque_id a.session_id
    && is_sha256_digest a.action_hash
    && is_short_text 768 a.idempotency_key
    && a.action_hash == action_digest p a
    && a.idempotency_key == idempotency_scope a.session_id (action_digest p a)

-- `actionProjection` of the three members of RoleQuerySpecSchema
pub data ActionProjection : Type 0 where
  inventory : String → ℕ → ActionProjection
  budget : String → ℕ → ActionProjection
  policy : String → ActionProjection

-- RoleQuerySpec: the projection's shape decides `role` and `source`.
pub record RoleQuerySpec : Type 0 where
  pub action_hash : String
  pub entity_key : String
  pub projection : ActionProjection
  pub query_hash : String

abbrev pub projection_role : ActionProjection → Role
projection_role (ActionProjection.inventory _ _) = Role.inventory
projection_role (ActionProjection.budget _ _) = Role.budget
projection_role (ActionProjection.policy _) = Role.policy

abbrev pub query_role : RoleQuerySpec → Role
query_role q = projection_role q.projection

abbrev pub role_name : Role → String
role_name Role.inventory = "inventory"
role_name Role.budget = "budget"
role_name Role.policy = "policy"

abbrev pub projection_schema : ActionProjection → Bool
projection_schema (ActionProjection.inventory c u) = is_opaque_id c && leb 1 u && is_safe u
projection_schema (ActionProjection.budget c e) = is_opaque_id c && is_safe e
projection_schema (ActionProjection.policy c) = is_opaque_id c

-- RoleQuerySpecSchema
unfoldable pub query_schema : RoleQuerySpec → Bool
unfolding is_opaque_id is_sha256_digest
query_schema q =
    is_sha256_digest q.action_hash
    && is_opaque_id q.entity_key
    && projection_schema q.projection
    && is_sha256_digest q.query_hash

abbrev pub projection_json : ActionProjection → JsonValue
projection_json (ActionProjection.inventory c u) = JsonValue.object (
    JsonFields.field "campaignId" (JsonValue.text c)
      (JsonFields.field "requestedUnits" (JsonValue.number u) JsonFields.end))
projection_json (ActionProjection.budget c e) = JsonValue.object (
    JsonFields.field "campaignId" (JsonValue.text c)
      (JsonFields.field "estimatedCostCents" (JsonValue.number e) JsonFields.end))
projection_json (ActionProjection.policy c) = JsonValue.object (
    JsonFields.field "campaignId" (JsonValue.text c)
      (JsonFields.field "market" (JsonValue.text "SG") JsonFields.end))

-- A query's fields, with what follows them: `queryHash` is left out of the canonical form.
abbrev pub query_fields : RoleQuerySpec → JsonFields → JsonValue
query_fields q rest = JsonValue.object (
    JsonFields.field "schemaVersion" (JsonValue.number 1) (
      JsonFields.field "actionHash" (JsonValue.text q.action_hash) (
        JsonFields.field "role" (JsonValue.text (role_name (query_role q))) (
          JsonFields.field "source" (JsonValue.text (role_name (query_role q))) (
            JsonFields.field "entityKey" (JsonValue.text q.entity_key)
              (JsonFields.field "actionProjection" (projection_json q.projection) rest))))))

abbrev pub query_json : RoleQuerySpec → JsonValue
query_json q =
    query_fields q (JsonFields.field "queryHash" (JsonValue.text q.query_hash) JsonFields.end)

-- canonicalizeRoleQuery, after its parse
unfoldable pub canonical_query : Platform → RoleQuerySpec → String
unfolding canonical_json
canonical_query p q = canonical_json p (query_fields q JsonFields.end)

abbrev pub project_action : ActionIntent → Role → ActionProjection
project_action a Role.inventory = ActionProjection.inventory a.campaign_id a.requested_units
project_action a Role.budget = ActionProjection.budget a.campaign_id a.estimated_cost_cents
project_action a Role.policy = ActionProjection.policy a.campaign_id

abbrev pub query_entity : ActionIntent → Role → String
query_entity a Role.policy = "SG"
query_entity a _ = a.campaign_id

abbrev pub zero_digest : String
zero_digest = "sha256:0000000000000000000000000000000000000000000000000000000000000000"

-- `candidate` in buildRoleQuerySpec: the query before its hash is known.
abbrev pub unhashed_query : Platform → ActionIntent → Role → RoleQuerySpec
unhashed_query p a r = record {
  action_hash = action_digest p a;
  entity_key = query_entity a r;
  projection = project_action a r;
  query_hash = zero_digest;
}

-- The query that buildRoleQuerySpec returns when its parses pass.
unfoldable pub role_query : Platform → ActionIntent → Role → RoleQuerySpec
unfolding action_digest canonical_query
role_query p a r =
    let base = unhashed_query p a r in
    record base { query_hash = value_digest p (query_fields base JsonFields.end) }

-- buildRoleQuerySpec: actionHash parses the action, and both query objects are parsed.
unfoldable pub build_role_query_spec :
    {E : Type 0} → Platform → E → ActionIntent → Role → Result E RoleQuerySpec
unfolding action_hash query_schema role_query
build_role_query_spec p e a r = do
  hashed ← action_hash p e a
  throw_if (not (query_schema (unhashed_query p a r))) e
  throw_if (not (query_schema (role_query p a r))) e
  ok (role_query p a r)
