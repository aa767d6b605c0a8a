-- ===== src/World/Closing.antt =====
-- Closing versions, in apps/server/src/epochguard/world-ledger.ts: what stays and what changes when
-- the open versions of some resources end at the next sequence.
use epochguard.Prelude.{
  ℕ, ◌+◌, ◌≤◌, ◌<◌, String, ◌≡◌, refl, ◌∙◌, Bool, true, false, none, some, List, [], ◌∷◌, ◌++◌, map,
  arith, ◌==◌, string_eq, length, filter, All, update_first, filter-update_first_out,
  filter-update_first_clears, map-filter-update_first, All-update_first, eq_of_beq, and_left,
  All-map,
}
use epochguard.Contract.Records.{ResourceVersion}
use epochguard.World.{is_open_of, is_version_at, close_at, close_versions}

-- What a version says, whatever its end.
abbrev pub content : ResourceVersion → ResourceVersion
content v = record v { valid_until_seq = none }

-- A version begins at or before `head`, and a finite end lies after the beginning and not beyond
-- `head`.
pub record IsBounded (head : ℕ) (v : ResourceVersion) : Type 0 where
  pub begun : v.valid_from_seq ≤ head
  pub ended : (u : ℕ) → v.valid_until_seq ≡ some u → (v.valid_from_seq < u) × (u ≤ head)

abbrev pub is_of : String → ResourceVersion → Bool
is_of r v = v.resource_id == r

module _ (r : String) (next : ℕ) where
  close-covers :
      (r' : String) (seq : ℕ) (v : ResourceVersion)
      → seq < next
      → is_open_of r' v ≡ true
      → is_version_at r seq (close_at next v) ≡ is_version_at r seq v
  close-covers r' seq v h o = ground arith

  -- Before `next`, closing changes what is selected in nothing but the ends.
  pub close_versions-history :
      (seq : ℕ) (cs vs : List ResourceVersion)
      → seq < next
      → map content (filter (is_version_at r seq) (close_versions next cs vs))
        ≡ map content (filter (is_version_at r seq) vs)
  unfolding close_versions
  close_versions-history seq [] vs h = refl
  close_versions-history seq (c ∷ cs) vs h =
      close_versions-history seq cs (update_first (is_open_of c.resource_id) (close_at next) vs) h
      ∙ map-filter-update_first content (is_version_at r seq) (is_open_of c.resource_id)
          (close_at next) (λ v o. close-covers c.resource_id seq v h o) (λ v. refl) vs

close_versions-append :
    (next : ℕ) (cs ds vs : List ResourceVersion)
    → close_versions next (cs ++ ds) vs ≡ close_versions next ds (close_versions next cs vs)
unfolding close_versions
close_versions-append next [] ds vs = refl
close_versions-append next (c ∷ cs) ds vs =
    close_versions-append next cs ds (update_first (is_open_of c.resource_id) (close_at next) vs)

pub close_versions-push :
    (next : ℕ) (cs : List ResourceVersion) (d : ResourceVersion) (vs : List ResourceVersion)
    → close_versions next (cs ++ d ∷ []) vs
      ≡ update_first (is_open_of d.resource_id) (close_at next) (close_versions next cs vs)
unfolding close_versions
close_versions-push next cs d vs = close_versions-append next cs (d ∷ []) vs

-- Closing a version of one resource leaves the versions of every other as they are.
pub filter-close_other :
    (r r' : String) (next : ℕ) (vs : List ResourceVersion)
    → (r' == r) ≡ false
    → filter (is_of r) (update_first (is_open_of r') (close_at next) vs) ≡ filter (is_of r) vs
filter-close_other r r' next vs ne =
    filter-update_first_out (is_of r) (is_open_of r') (close_at next)
      (λ v o. let e = eq_of_beq v.resource_id r' (and_left _ _ o) in (rw e ne, rw e ne)) vs

pub filter-open_other :
    (r r' : String) (next : ℕ) (vs : List ResourceVersion)
    → (r' == r) ≡ false
    → filter (is_open_of r) (update_first (is_open_of r') (close_at next) vs)
      ≡ filter (is_open_of r) vs
filter-open_other r r' next vs ne =
    filter-update_first_out (is_open_of r) (is_open_of r') (close_at next)
      (λ v o. let e = eq_of_beq v.resource_id r' (and_left _ _ o) in (rw e (rw ne), rw e (rw ne)))
      vs

-- Closing the one open version of a resource leaves none open.
pub filter-open_closed :
    (r : String) (next : ℕ) (vs : List ResourceVersion)
    → length (filter (is_open_of r) vs) ≤ 1
    → filter (is_open_of r) (update_first (is_open_of r) (close_at next) vs) ≡ []
filter-open_closed r next vs one =
    filter-update_first_clears (is_open_of r) (close_at next) (λ v o. ground arith) vs one

-- Closing at the sequence after `head` keeps every version bounded by that sequence.
abbrev IsClosing : ℕ → ResourceVersion → Type 0
IsClosing head v =
    (v.valid_from_seq ≤ head)
    × ((u : ℕ) → v.valid_until_seq ≡ some u → (v.valid_from_seq < u) × (u ≤ head + 1))

close-IsClosing :
    (head : ℕ) (r : String) (v : ResourceVersion)
    → is_open_of r v ≡ true
    → IsClosing head v
    → IsClosing head (close_at (head + 1) v)
close-IsClosing head r v o h = (h.0, λ u e. ground arith)

close_versions-IsClosing :
    (head : ℕ) (cs vs : List ResourceVersion)
    → All (IsClosing head) vs
    → All (IsClosing head) (close_versions (head + 1) cs vs)
unfolding close_versions
close_versions-IsClosing head [] vs h = h
close_versions-IsClosing head (c ∷ cs) vs h = close_versions-IsClosing head cs _ (
    All-update_first (IsClosing head) (is_open_of c.resource_id) (close_at (head + 1))
      (close-IsClosing head c.resource_id) vs h)

pub close_versions-IsBounded :
    (head : ℕ) (cs vs : List ResourceVersion)
    → All (IsBounded head) vs
    → All (IsBounded (head + 1)) (close_versions (head + 1) cs vs)
close_versions-IsBounded head cs vs h =
    All-map (λ v c. record { begun = omega (arith, c.0); ended = c.1 }) _
      (close_versions-IsClosing head cs vs
        (All-map (λ v b. (b.begun, λ u e. let (lo, hi) = b.ended u e in (lo, omega arith))) vs h))
