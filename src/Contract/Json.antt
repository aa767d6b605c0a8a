-- ===== src/Contract/Json.antt =====
-- `JsonValue` and `canonicalJson` of apps/server/src/epochguard/types.ts.
use epochguard.Prelude.{String, Bool, true, false, List, [], ◌∷◌, concat, str_lt, sort}
use epochguard.Platform.{Platform}
use epochguard.Contract.Values.{
  JsonValue, JsonItems, JsonFields, null, bool, number, other_number, text, array, object, nil,
  cons, end, field,
}

-- `texts.join(",")`
pub join_comma : List String → String
join_comma [] = ""
join_comma (t ∷ []) = t
join_comma (t ∷ u ∷ ts) = concat t (concat "," (join_comma (u ∷ ts)))

abbrev pub key_lt : String × String → String × String → Bool
key_lt a b = str_lt a.0 b.0

-- An entry's key and the canonical text of its value, as `"key":value`.
abbrev pub render_entry : Platform → String × String → String
render_entry p (k, v) = concat (p.json_string k) (concat ":" v)

pub render_entries : Platform → List (String × String) → List String
render_entries p [] = []
render_entries p (e ∷ es) = render_entry p e ∷ render_entries p es

unfoldable mutual
  unfolding join_comma render_entries sort str_lt

  pub canonical_json : Platform → JsonValue → String
  canonical_json p null = "null"
  canonical_json p (bool true) = "true"
  canonical_json p (bool false) = "false"
  canonical_json p (number n) = p.json_number n
  canonical_json p (other_number t) = t
  canonical_json p (text t) = p.json_string t
  canonical_json p (array items) = concat "[" (concat (join_comma (canonical_items p items)) "]")
  canonical_json p (object fields) =
      concat "{"
        (concat (join_comma (render_entries p (sort key_lt (canonical_entries p fields)))) "}")

  pub canonical_items : Platform → JsonItems → List String
  canonical_items p nil = []
  canonical_items p (cons j js) = canonical_json p j ∷ canonical_items p js

  -- The comparator reads only the keys, so the values are rendered before the sort.
  pub canonical_entries : Platform → JsonFields → List (String × String)
  canonical_entries p end = []
  canonical_entries p (field k j fs) = (k, canonical_json p j) ∷ canonical_entries p fs

unfoldable pub sha256_digest : Platform → String → String
sha256_digest p t = concat "sha256:" (p.sha256_hex t)

-- `sha256Digest(canonicalJson(value))`
unfoldable pub value_digest : Platform → JsonValue → String
unfolding sha256_digest canonical_json
value_digest p j = sha256_digest p (canonical_json p j)

abbrev pub items_of : List String → JsonItems
items_of [] = nil
items_of (t ∷ ts) = cons (text t) (items_of ts)

-- snapshotReceiptDependencySetHash; jointValidityDependencySetHash sorts by the same order.
unfoldable pub receipt_set_hash : Platform → List String → String
unfolding value_digest sort str_lt
receipt_set_hash p ids = value_digest p (array (items_of (sort str_lt ids)))
