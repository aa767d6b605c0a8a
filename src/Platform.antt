-- ===== src/Platform.antt =====
-- What the server takes from Node.js, Zod and the JavaScript runtime, as parameters.
use epochguard.Prelude.{ℕ, String, Bool}
use epochguard.Contract.Values.{JsonValue}

pub record Platform : Type 0 where
  -- createHash("sha256").update(text).digest("hex")
  pub sha256_hex : String → String
  -- JSON.stringify of a string, of a non-negative integer
  pub json_string : String → String
  pub json_number : ℕ → String
  -- JSON.parse, on the canonical texts that the server itself prints
  pub json_parse : String → JsonValue
  -- z.string().datetime({ offset: true })
  pub is_datetime : String → Bool
  -- Date.parse(a) <= Date.parse(b)
  pub date_le : String → String → Bool
