-- ===== src/Contract/Identifiers.antt =====
-- The scalar schemas of apps/server/src/epochguard/types.ts: identifiers, digests, timestamps and
-- integers.
use Prim.Native.Nat.{◌^◌}
use epochguard.Prelude.{
  ℕ, String, ◌-◌, Bool, true, false, ◌&&◌, ◌||◌, Option, none, some, List, [], ◌∷◌, leb, every,
  length, codes, utf16_length, nat_beq, if◌then◌else◌,
}

abbrev pub between : ℕ → ℕ → ℕ → Bool
between lo hi c = leb lo c && leb c hi

abbrev pub is_alphanumeric : ℕ → Bool
is_alphanumeric c = between b'A' b'Z' c || between b'a' b'z' c || between b'0' b'9' c

abbrev pub is_opaque_char : ℕ → Bool
is_opaque_char c =
    is_alphanumeric c || nat_beq c b'.' || nat_beq c b'_' || nat_beq c b':' || nat_beq c b'-'

-- 1 to 256 characters, /^[A-Za-z0-9][A-Za-z0-9._:-]*$/
abbrev pub opaque_codes : List ℕ → Bool
opaque_codes [] = false
opaque_codes (c ∷ cs) = is_alphanumeric c && every is_opaque_char cs && leb (length (c ∷ cs)) 256

unfoldable pub is_opaque_id : String → Bool
is_opaque_id s = opaque_codes (codes s)

abbrev pub is_hex_digit : ℕ → Bool
is_hex_digit c = between b'0' b'9' c || between b'a' b'f' c

-- What follows a prefix that the list must begin with.
unfoldable pub after_prefix : List ℕ → List ℕ → Option (List ℕ)
after_prefix [] cs = some cs
after_prefix (x ∷ xs) [] = none
after_prefix (x ∷ xs) (c ∷ cs) = let rest = after_prefix xs cs in if nat_beq x c then rest else none

-- /^sha256:[0-9a-f]{64}$/
unfoldable pub is_sha256_digest : String → Bool
unfolding after_prefix
is_sha256_digest s = elim (after_prefix (codes "sha256:") (codes s)) [
  | none ↦ false
  | some hex ↦ nat_beq (length hex) 64 && every is_hex_digit hex
]

-- z.string().min(1).max(n)
unfoldable pub is_short_text : ℕ → String → Bool
unfolding utf16_length
is_short_text n s = leb 1 (utf16_length (codes s)) && leb (utf16_length (codes s)) n

-- Number.MAX_SAFE_INTEGER
abbrev pub max_safe_integer : ℕ
max_safe_integer = 2 ^ 53 - 1

-- z.number().int().nonnegative() admits the safe integers.
abbrev pub is_safe : ℕ → Bool
is_safe n = leb n max_safe_integer

-- `.nullable()`
abbrev pub nullable {ℓ} : {A : Type ℓ} → (A → Bool) → Option A → Bool
nullable p none = true
nullable p (some a) = p a
