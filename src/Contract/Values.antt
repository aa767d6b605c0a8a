-- ===== src/Contract/Values.antt =====
-- `JsonValue` of apps/server/src/epochguard/types.ts.
use epochguard.Prelude.{ℕ, String, Bool}

-- A finite number is a non-negative integer, or any other number, known by its JSON text.
mutual
  pub data JsonValue : Type 0 where
    null : JsonValue
    bool : Bool → JsonValue
    number : ℕ → JsonValue
    other_number : String → JsonValue
    text : String → JsonValue
    array : JsonItems → JsonValue
    object : JsonFields → JsonValue

  pub data JsonItems : Type 0 where
    nil : JsonItems
    cons : JsonValue → JsonItems → JsonItems

  pub data JsonFields : Type 0 where
    end : JsonFields
    field : String → JsonValue → JsonFields → JsonFields
