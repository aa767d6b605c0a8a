-- ===== src/Contract/Paths.antt =====
-- EvidencePackRelativePathSchema of apps/server/src/epochguard/types.ts, segment by segment.
use mathlib.Core.List.{reverse}
use epochguard.Prelude.{
  ℕ, String, Bool, true, false, ◌&&◌, ◌||◌, none, some, List, [], ◌∷◌, leb, every, length, codes,
  nat_beq,
}
use epochguard.Contract.Identifiers.{is_alphanumeric, after_prefix}

abbrev is_segment_char : ℕ → Bool
is_segment_char c = is_alphanumeric c || nat_beq c b'.' || nat_beq c b'_' || nat_beq c b'-'

-- /^[A-Za-z0-9][A-Za-z0-9._-]{0,127}$/
pub is_segment : List ℕ → Bool
is_segment [] = false
is_segment (c ∷ cs) = is_alphanumeric c && every is_segment_char cs && leb (length cs) 127

pub codes_eq : List ℕ → List ℕ → Bool
codes_eq [] [] = true
codes_eq (x ∷ xs) (y ∷ ys) = nat_beq x y && codes_eq xs ys
codes_eq _ _ = false

-- The segments between the slashes; `segment` is the one that is being read, backwards.
pub split_slash : List ℕ → List ℕ → List (List ℕ)
split_slash segment [] = reverse segment ∷ []
split_slash segment (c ∷ cs) = elim (nat_beq c b'/') [
  | true ↦ reverse segment ∷ split_slash [] cs
  | false ↦ split_slash (c ∷ segment) cs
]

-- A segment that is followed by ".json".
pub is_json_file : List ℕ → Bool
is_json_file cs = elim (after_prefix (reverse (codes ".json")) (reverse cs)) [
  | none ↦ false
  | some stem ↦ is_segment (reverse stem)
]

pub pack_segments : List (List ℕ) → Bool
pack_segments (root ∷ sessions ∷ session ∷ role ∷ file ∷ []) =
    codes_eq root (codes ".epochguard")
    && codes_eq sessions (codes "sessions")
    && is_segment session
    && (codes_eq role (codes "inventory")
        || codes_eq role (codes "budget")
        || codes_eq role (codes "policy"))
    && is_json_file file
pack_segments _ = false

unfoldable pub is_evidence_pack_path : String → Bool
unfolding split_slash pack_segments is_json_file is_segment codes_eq after_prefix
is_evidence_pack_path s = pack_segments (split_slash [] (codes s)) && leb (length (codes s)) 1024
