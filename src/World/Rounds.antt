-- ===== src/World/Rounds.antt =====
-- The loop of `WorldLedger.commit` in apps/server/src/epochguard/world-ledger.ts over the sorted
-- changes: what its variables hold after each round.
use epochguard.Prelude.{
  ℕ, String, ◌≡◌, refl, ◌∙◌, ap, inl, inr, true, false, Option, none, some, List, [], ◌∷◌, ◌++◌,
  arith, string_eq, filter, includes, Result, ok, ◌>>=◌, bind-eq-ok, Result-cases,
}
use epochguard.Platform.{Platform}
use epochguard.Contract.Records.{ResourceVersion}
use epochguard.Contract.Schemas.{version_schema}
use epochguard.Contract.Database.{EpochDatabase}
use epochguard.World.{
  WorldError, WorldChangeInput, Staging, is_open_of, at_most_one, verify_match, parse_verified,
  open_version, next_version, push_some, stage_change,
}

-- What openVersion returns: nothing if no version is open, or the only open one.
abbrev pub IsOnlyOpen : List ResourceVersion → String → Option ResourceVersion → Type 0
IsOnlyOpen vs r none = filter (is_open_of r) vs ≡ []
IsOnlyOpen vs r (some v) = filter (is_open_of r) vs ≡ v ∷ []

module _ (p : Platform) where
  pub parse_verified-eq-ok :
      (v w : ResourceVersion) → parse_verified p v ≡ ok w → (v ≡ w) × (version_schema p v ≡ true)
  unfolding parse_verified
  parse_verified-eq-ok v w h = ground arith

  matches-IsOnlyOpen :
      (r : String) (vs matches : List ResourceVersion) (previous : Option ResourceVersion)
      → filter (is_open_of r) vs ≡ matches
      → (at_most_one WorldError.multiple_open matches >>= verify_match p) ≡ ok previous
      → IsOnlyOpen vs r previous
  matches-IsOnlyOpen r vs [] none e h = e
  matches-IsOnlyOpen r vs [] (some v) e h = cc
  matches-IsOnlyOpen r vs (x ∷ y ∷ l) previous e h = cc
  matches-IsOnlyOpen r vs (x ∷ []) previous e h =
      let (w, parsed, same) = bind-eq-ok (parse_verified p x) _ h in
      let (x_is_w, _) = parse_verified-eq-ok x w parsed in rewrap previous same x_is_w
    where
      rewrap :
          {w : ResourceVersion} (o : Option ResourceVersion)
          → ◌≡◌ {A = Result WorldError (Option ResourceVersion)} (ok (some w)) (ok o)
          → x ≡ w
          → IsOnlyOpen vs r o
      rewrap none q xw = cc
      rewrap (some v) q xw = e ∙ ap (λ z. z ∷ []) (xw ∙ (ground arith))

  pub open_version-IsOnlyOpen :
      (db : EpochDatabase) (r : String) (previous : Option ResourceVersion)
      → open_version p db r ≡ ok previous
      → IsOnlyOpen db.resource_versions r previous
  unfolding open_version
  open_version-IsOnlyOpen db r previous h =
      matches-IsOnlyOpen r db.resource_versions _ previous refl h

  -- The loop's variables after a round for `c`, whose open version was `previous`.
  abbrev pub after_round : ℕ → Staging → WorldChangeInput → Option ResourceVersion → Staging
  after_round next st c previous = record {
    seen = c.resource_id ∷ st.seen;
    pending = st.pending ++ next_version p next c ∷ [];
    to_close = push_some st.to_close previous;
    known_ids = (next_version p next c).id ∷ st.known_ids;
  }

  -- What a round that does not throw has found.
  pub stage_change_inv :
      (db : EpochDatabase) (next : ℕ) (st : Staging) (c : WorldChangeInput) {st' : Staging}
      → stage_change p db next st c ≡ ok st'
      → (previous : Option ResourceVersion) × (includes st.seen c.resource_id ≡ false)
        × (open_version p db c.resource_id ≡ ok previous)
        × (version_schema p (next_version p next c) ≡ true)
        × (after_round next st c previous ≡ st')
  unfolding stage_change
  stage_change_inv db next st c h = elim (Result-cases (open_version p db c.resource_id)) [
    | inl (previous, found) ↦ (previous, ground arith, found, ground arith, ground arith)
    | inr (e, failed) ↦ absurd (ground arith)
  ]
