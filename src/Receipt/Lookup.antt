-- ===== src/Receipt/Lookup.antt =====
-- Resolutions of resource versions that find one, in apps/server/src/epochguard/world-ledger.ts and
-- receipt-issuer.ts.
use epochguard.Prelude.{
  ◌≡◌, none, refl, sym, ◌∙◌, ap, inl, inr, String, ℕ, true, some, List, [], ◌∷◌, arith, ◌==◌,
  string_eq, nat_eq, filter, ok, Result-cases, Member, Member-filter, bind-eq-ok, throw_if-eq-ok,
  ◌>>=◌, filter_single, length, beq_refl, and_left, ◌≤◌,
}
use epochguard.Contract.States.{Source}
use epochguard.Platform.{Platform}
use epochguard.Contract.Records.{ResourceVersion, ObservationReceipt}
use epochguard.Contract.Database.{EpochDatabase}
use epochguard.World.{
  WorldError, resolve_by_identity, resolve_by_revision, resolve_version_at, resource_id_for,
  parse_verified, versions_at, has_revision, is_version_at, at_most_one, verify_match,
}
use epochguard.Receipt.{resolve_receipt_version, check_interval}

verify_match-eq : (p : Platform) (v w : ResourceVersion) → parse_verified p v ≡ ok w → v ≡ w
unfolding parse_verified
verify_match-eq p v w h = ground arith

-- A lookup that returns a version has selected that one alone, and it is well-formed.
lookup-found :
    (p : Platform) (e : WorldError) (vs : List ResourceVersion) (v : ResourceVersion)
    → (at_most_one e vs >>= verify_match p) ≡ ok (some v)
    → (vs ≡ v ∷ []) × (parse_verified p v ≡ ok v)
lookup-found p e [] v h = cc
lookup-found p e (x ∷ []) v h =
    let (w, parsed, same) = bind-eq-ok (parse_verified p x) (λ w. ok (some w)) h in
    let returned : w ≡ v = ground arith in
    let given : x ≡ w = verify_match-eq p x w parsed in (ap (λ y. y ∷ []) (given ∙ returned), cc)
lookup-found p e (x ∷ y ∷ ys) v h = cc

module _ (p : Platform) (db : EpochDatabase) where
  -- A resolution at a sequence that finds a version has found the only one valid there.
  pub resolve_version_at-found :
      (r : String) (seq : ℕ) (v : ResourceVersion)
      → resolve_version_at p db r seq ≡ ok (some v)
      → (versions_at db r seq ≡ v ∷ []) × (parse_verified p v ≡ ok v)
  unfolding resolve_version_at
  resolve_version_at-found r seq v h =
      let (safe, found) = throw_if-eq-ok _ _ _ h in
      lookup-found p WorldError.overlapping_versions (versions_at db r seq) v found

  -- A resolution by identity that finds a version has found the only one with the revision.
  pub resolve_by_identity-found :
      (source : Source) (key : String) (revision : ℕ) (v : ResourceVersion)
      → resolve_by_identity p db source key revision ≡ ok (some v)
      → (r : String) × (resource_id_for p source key ≡ ok r)
        × (filter (has_revision r revision) db.resource_versions ≡ v ∷ [])
  unfolding resolve_by_identity
  resolve_by_identity-found source key revision v h =
      let (safe, named) = throw_if-eq-ok _ _ _ h in
      let (r, id, found) = bind-eq-ok _ _ named in
      let (selected, _) =
        lookup-found p WorldError.duplicate_revision
          (filter (has_revision r revision) db.resource_versions) v found in
      (r, id, selected)

module _ (p : Platform) (db : EpochDatabase) (r : ObservationReceipt) where
  interval_same : (v w : ResourceVersion) → check_interval p db r v ≡ ok w → w ≡ v
  unfolding check_interval
  interval_same v w h = ground arith

  -- A Receipt that resolves has the only version with its identity.
  pub resolve_receipt_version-found :
      (w : ResourceVersion)
      → resolve_receipt_version p db r ≡ ok w
      → (resource : String) × (resource_id_for p r.source r.entity_key ≡ ok resource)
        × (filter (has_revision resource r.source_revision) db.resource_versions ≡ w ∷ [])
  unfolding resolve_receipt_version
  resolve_receipt_version-found w h =
      elim (Result-cases (resolve_by_identity p db r.source r.entity_key r.source_revision)) [
        | inr (_, e) ↦ absurd (ground arith)
        | inl (none, e) ↦ absurd (ground arith)
        | inl (some v, e) ↦
            let checked : check_interval p db r v ≡ ok w = ground arith in
            let found =
              resolve_by_identity-found p db r.source r.entity_key r.source_revision v e in
            (found.0, found.1, rw (interval_same v w checked) (found.2))
      ]

-- Receipts are no part of what resolution reads.
pub resolve_receipt_version-receipts :
    (p : Platform) (db : EpochDatabase) (rs : List ObservationReceipt) (r : ObservationReceipt)
    → resolve_receipt_version p (record db { receipts = rs }) r ≡ resolve_receipt_version p db r
unfolding resolve_receipt_version check_interval resolve_by_identity resolve_by_revision
resolve_receipt_version-receipts p db rs r = refl

-- Of a version that is the only one with its identity, every member with that identity is the one.
pub only_revision :
    (resource : String) (revision seq : ℕ) (db : EpochDatabase) (v w : ResourceVersion)
    → versions_at db resource seq ≡ v ∷ []
    → v.source_revision ≡ revision
    → filter (has_revision resource revision) db.resource_versions ≡ w ∷ []
    → w ≡ v
unfolding versions_at
only_revision resource revision seq db v w current same found =
    let selected : Member v (versions_at db resource seq) = rw current (inl refl) in
    let (member, picked) =
      Member-filter (is_version_at resource seq) v db.resource_versions selected in
    let named : (v.resource_id == resource) ≡ true = and_left _ _ picked in
    let one : length (filter (has_revision resource revision) db.resource_versions) ≤ 1 =
      rw found (omega arith) in
    let only =
      filter_single (has_revision resource revision) db.resource_versions v one member
        (rw (named, same, beq_refl revision)) in
    ground (arith, sym found ∙ only)
