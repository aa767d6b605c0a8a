-- ===== src/World/Staged.antt =====
-- The invariant of the loop of `WorldLedger.commit` in
-- apps/server/src/epochguard/world-ledger.ts, and that each round keeps it.
use epochguard.Prelude.{
  ℕ, String, ◌≡◌, refl, sym, ◌∙◌, ap, inl, inr, true, false, Option, none, some, List, [], ◌∷◌,
  ◌++◌, ◌||◌, map, arith, ◌==◌, string_eq, length, filter, any, includes, All, update_first,
  filter-append, length-append, All-append, eq_of_beq, and_left, Bool-cases, ok, Result-cases,
  filter-filter, if◌then◌else◌, subst, Member,
}
use mathlib.Core.List.{append-nil, append_assoc}
use epochguard.Contract.Schemas.{version_schema}
use epochguard.Platform.{Platform}
use epochguard.Contract.Records.{ResourceVersion}
use epochguard.Contract.Database.{EpochDatabase}
use epochguard.World.{
  WorldChangeInput, Staging, is_open_of, next_version, push_some, close_versions, stage_change,
  stage_changes, close_at, initial_staging,
}
use epochguard.World.Closing.{
  is_of, close_versions-push, filter-close_other, filter-open_other, filter-open_closed,
}
use epochguard.World.Rounds.{IsOnlyOpen, after_round, open_version-IsOnlyOpen, stage_change_inv}

-- A version that begins at `next` and is open.
abbrev pub IsFresh : ℕ → ResourceVersion → Type 0
IsFresh next v = (v.valid_from_seq ≡ next) × (v.valid_until_seq ≡ none)

-- What the loop's variables say, with `vs` the versions of the database.
pub record IsStaged (vs : List ResourceVersion) (next : ℕ) (st : Staging) : Type 0 where
  pub fresh : All (IsFresh next) st.pending
  pub one_each :
      (r : String) → length (filter (is_of r) st.pending) ≡ (if includes st.seen r then 1 else 0)
  pub closed :
      (r : String)
      → includes st.seen r ≡ true
      → filter (is_open_of r) (close_versions next st.to_close vs) ≡ []
  pub untouched :
      (r : String)
      → includes st.seen r ≡ false
      → filter (is_of r) (close_versions next st.to_close vs) ≡ filter (is_of r) vs

-- The closings after one more round.
close_versions-push_some :
    (next : ℕ) (cs : List ResourceVersion) (previous : Option ResourceVersion)
    (vs : List ResourceVersion)
    → close_versions next (push_some cs previous) vs ≡ elim previous [
      | none ↦ close_versions next cs vs
      | some v ↦ update_first (is_open_of v.resource_id) (close_at next) (close_versions next cs vs)
    ]
close_versions-push_some next cs none vs = refl
close_versions-push_some next cs (some v) vs = close_versions-push next cs v vs

-- The open versions of a resource are found among its versions.
filter-open-of :
    (r : String) (xs ys : List ResourceVersion)
    → filter (is_of r) xs ≡ filter (is_of r) ys
    → filter (is_open_of r) xs ≡ filter (is_open_of r) ys
filter-open-of r xs ys e =
    sym (filter-filter (is_of r) (is_open_of r) (λ v o. and_left _ _ o) xs)
    ∙ ap (filter (is_open_of r)) e
    ∙ filter-filter (is_of r) (is_open_of r) (λ v o. and_left _ _ o) ys

-- An open version that was found alone is a version of the resource.
IsOnlyOpen-resource :
    (r : String) (v : ResourceVersion) (vs : List ResourceVersion)
    → filter (is_open_of r) vs ≡ v ∷ []
    → v.resource_id ≡ r
IsOnlyOpen-resource r v [] e = cc
IsOnlyOpen-resource r v (x ∷ xs) e = elim (Bool-cases (is_open_of r x)) [
  | inl o ↦ ground (arith, eq_of_beq x.resource_id r (and_left _ _ o))
  | inr o ↦ IsOnlyOpen-resource r v xs (ground arith)
]

module _ (p : Platform) (vs : List ResourceVersion) (next : ℕ) (st : Staging) (c : WorldChangeInput)
    (inv : IsStaged vs next st) (unseen : includes st.seen c.resource_id ≡ false) where
  abbrev closed_before : List ResourceVersion
  closed_before = close_versions next st.to_close vs

  -- The open versions of the round's resource are still those of the database.
  open_as_before :
      filter (is_open_of c.resource_id) closed_before ≡ filter (is_open_of c.resource_id) vs
  open_as_before = filter-open-of c.resource_id _ _ (inv.untouched c.resource_id unseen)

  closed_after :
      (previous : Option ResourceVersion) (r : String)
      → IsOnlyOpen vs c.resource_id previous
      → (c.resource_id == r || includes st.seen r) ≡ true
      → filter (is_open_of r) (close_versions next (push_some st.to_close previous) vs) ≡ []
  closed_after none r only h = elim (Bool-cases (c.resource_id == r)) [
    | inl e ↦ rw (← eq_of_beq c.resource_id r e) (open_as_before ∙ only)
    | inr e ↦ inv.closed r (ground arith)
  ]
  closed_after (some v) r only h =
      let same = IsOnlyOpen-resource c.resource_id v vs only in
      rw (close_versions-push, same)
        (elim (Bool-cases (c.resource_id == r)) [
          | inl e ↦ rw (← eq_of_beq c.resource_id r e) (
              filter-open_closed c.resource_id next closed_before
                (rw (open_as_before ∙ only) (omega arith)))
          | inr e ↦
              filter-open_other r c.resource_id next closed_before e ∙ inv.closed r (ground arith)
        ])

  untouched_after :
      (previous : Option ResourceVersion) (r : String)
      → IsOnlyOpen vs c.resource_id previous
      → (c.resource_id == r || includes st.seen r) ≡ false
      → filter (is_of r) (close_versions next (push_some st.to_close previous) vs)
        ≡ filter (is_of r) vs
  untouched_after none r only h = inv.untouched r (ground arith)
  untouched_after (some v) r only h =
      let same = IsOnlyOpen-resource c.resource_id v vs only in
      rw (close_versions-push, same)
        (filter-close_other r c.resource_id next closed_before (ground arith)
          ∙ inv.untouched r (ground arith))

  one_each_after :
      (r : String)
      → length (filter (is_of r) (st.pending ++ next_version p next c ∷ []))
        ≡ (if c.resource_id == r || includes st.seen r then 1 else 0)
  unfolding next_version
  one_each_after r =
      rw (filter-append, length-append)
        (elim (Bool-cases (c.resource_id == r)) [
          | inl e ↦ ground (arith, inv.one_each r, eq_of_beq c.resource_id r e)
          | inr e ↦ ground (arith, inv.one_each r)
        ])

  after_round-IsStaged :
      (previous : Option ResourceVersion)
      → IsOnlyOpen vs c.resource_id previous
      → IsStaged vs next (after_round p next st c previous)
  unfolding next_version
  after_round-IsStaged previous only = record {
    fresh = All-append (IsFresh next) st.pending _ inv.fresh ((refl, refl), tt);
    one_each = one_each_after;
    closed = λ r h. closed_after previous r only h;
    untouched = λ r h. untouched_after previous r only h;
  }

module _ (p : Platform) (db : EpochDatabase) (next : ℕ) where
  stage_change-IsStaged :
      (st : Staging) (c : WorldChangeInput) {st' : Staging}
      → stage_change p db next st c ≡ ok st'
      → IsStaged db.resource_versions next st
      → IsStaged db.resource_versions next st'
  stage_change-IsStaged st c h inv =
      let (previous, unseen, found, _, e) = stage_change_inv p db next st c h in
      subst (IsStaged db.resource_versions next) e (
        after_round-IsStaged p db.resource_versions next st c inv unseen previous
          (open_version-IsOnlyOpen p db c.resource_id previous found))

  -- The whole loop keeps the invariant.
  pub stage_changes-IsStaged :
      (cs : List WorldChangeInput) (st : Staging) {st' : Staging}
      → stage_changes p db next st cs ≡ ok st'
      → IsStaged db.resource_versions next st
      → IsStaged db.resource_versions next st'
  unfolding stage_changes
  stage_changes-IsStaged [] st h inv = subst (IsStaged db.resource_versions next) (ground arith) inv
  stage_changes-IsStaged (c ∷ cs) st h inv = elim (Result-cases (stage_change p db next st c)) [
    | inl (st₁, e) ↦ stage_changes-IsStaged cs st₁ (rw e at h) (stage_change-IsStaged st c e inv)
    | inr (_, e) ↦ absurd (ground arith)
  ]

  pub initial_staging-IsStaged : IsStaged db.resource_versions next (initial_staging p db)
  unfolding close_versions
  initial_staging-IsStaged = record {
    fresh = tt;
    one_each = λ r. refl;
    closed = λ r h. cc;
    untouched = λ r h. refl;
  }

  -- The versions that the loop appends, and the resources that it has seen.
  pub pending-stage_changes :
      (cs : List WorldChangeInput) (st : Staging) {st' : Staging}
      → stage_changes p db next st cs ≡ ok st'
      → st'.pending ≡ st.pending ++ map (next_version p next) cs
  unfolding stage_changes
  pending-stage_changes [] st h = ground (arith, append-nil st.pending)
  pending-stage_changes (c ∷ cs) st {st'} h = elim (Result-cases (stage_change p db next st c)) [
    | inl (st₁, e) ↦
        let (previous, _, _, _, round) = stage_change_inv p db next st c e in
        pending-stage_changes cs st₁ (rw e at h)
        ∙ rw (← round)
            (append_assoc st.pending (next_version p next c ∷ []) (map (next_version p next) cs))
    | inr (_, e) ↦ absurd (ground arith)
  ]

  pub seen-stage_changes :
      (cs : List WorldChangeInput) (st : Staging) (r : String) {st' : Staging}
      → stage_changes p db next st cs ≡ ok st'
      → includes st'.seen r ≡ (any (λ c. c.resource_id == r) cs || includes st.seen r)
  unfolding stage_changes
  seen-stage_changes [] st r h = ground arith
  seen-stage_changes (c ∷ cs) st r h = elim (Result-cases (stage_change p db next st c)) [
    | inl (st₁, e) ↦
        let (previous, _, _, _, round) = stage_change_inv p db next st c e in
        seen-stage_changes cs st₁ r (rw e at h) ∙ rw (← round) (ground arith)
    | inr (_, e) ↦ absurd (ground arith)
  ]

  pub schema-stage_changes :
      (cs : List WorldChangeInput) (st : Staging) {st' : Staging}
      → stage_changes p db next st cs ≡ ok st'
      → (c : WorldChangeInput) → Member c cs
      → version_schema p (next_version p next c) ≡ true
  unfolding stage_changes
  schema-stage_changes [] st h c m = absurd m
  schema-stage_changes (c₀ ∷ cs) st h c m = elim (Result-cases (stage_change p db next st c₀)) [
    | inr (_, e) ↦ absurd (ground arith)
    | inl (st₁, e) ↦
        let (previous, _, _, valid, _) = stage_change_inv p db next st c₀ e in
        elim m [
          | inl same ↦ rw same valid
          | inr later ↦ schema-stage_changes cs st₁ (rw e at h) c later
        ]
  ]
