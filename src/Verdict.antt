-- ===== src/Verdict.antt =====
-- The authoritative role rules: `evaluateAuthoritativeVerdict` of
-- apps/server/src/epochguard/evidence-pack-writer.ts.
use epochguard.Prelude.{
  ℕ, String, Bool, ◌&&◌, Option, none, some, leb, if◌then◌else◌, ◌==◌, string_eq,
}
use epochguard.Contract.Values.{JsonValue, number, bool, object, end, field}
use epochguard.Contract.States.{Role, Verdict}
use epochguard.Contract.Identifiers.{is_safe}
use epochguard.Contract.Action.{ActionIntent}

-- A strict object with one field, which holds a non-negative integer.
abbrev pub integer_field : String → JsonValue → Option ℕ
integer_field key (object (field k (number n) end)) = if k == key && is_safe n then some n else none
integer_field key _ = none

-- A strict object with one field, which holds a Boolean.
abbrev pub boolean_field : String → JsonValue → Option Bool
boolean_field key (object (field k (bool b) end)) = if k == key then some b else none
boolean_field key _ = none

abbrev pub verdict_if : Bool → Verdict
verdict_if b = if b then Verdict.allow else Verdict.deny

abbrev pub verdict_from : {A : Type 0} → (A → Bool) → Option A → Option Verdict
verdict_from test none = none
verdict_from test (some a) = some (verdict_if (test a))

-- `none` is the Zod error of a value that is not an observation of the role.
unfoldable pub authoritative_verdict : Role → ActionIntent → JsonValue → Option Verdict
authoritative_verdict Role.inventory a v =
    verdict_from (λ units. leb a.requested_units units) (integer_field "availableUnits" v)
authoritative_verdict Role.budget a v =
    verdict_from (λ cents. leb a.estimated_cost_cents cents)
      (integer_field "remainingBudgetCents" v)
authoritative_verdict Role.policy a v = verdict_from (λ b. b) (boolean_field "permitted" v)
