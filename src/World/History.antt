-- ===== src/World/History.antt =====
-- The world's history in apps/server/src/epochguard/world-ledger.ts: at every sequence at most one
-- version of a resource is valid, and a commit changes what is valid from its sequence on only.
use epochguard.Prelude.{
  ℕ, ◌+◌, ◌≤◌, String, ◌≡◌, sym, ◌∙◌, ap, inl, inr, true, false, List, [], ◌∷◌, ◌++◌, map, arith,
  ◌==◌, string_eq, length, filter, All, Member, Bool-cases, filter-append, filter_none,
  filter_congr, filter_single, filter-filter, All-append, All-map, length-map, and_left, beq_refl,
  Option-cases, empty_of_length, any_of_Member,
}
use mathlib.Core.List.{append-nil}
use native.Mathlib.Decide.{dec_le}
use epochguard.Platform.{Platform}
use epochguard.Contract.Records.{WorldCommit, ResourceVersion}
use epochguard.Contract.Database.{EpochDatabase}
use epochguard.World.{
  WorldChangeInput, WorldCommitInput, is_open_of, is_version_at, versions_at, next_version,
  close_versions,
}
use epochguard.World.Closing.{
  IsBounded, content, is_of, close_versions-history, close_versions-IsBounded,
}
use epochguard.World.Staged.{IsFresh}
use epochguard.World.Commit.{Committed, changes_resource}

-- The world part of a database: bounded intervals, and at most one version of a resource at a time.
pub record IsChronological (db : EpochDatabase) : Type 0 where
  pub bounded : All (IsBounded db.head_seq) db.resource_versions
  pub unique : (r : String) (seq : ℕ) → length (versions_at db r seq) ≤ 1

-- At the head and after it, the valid versions are the open ones.
covers-open :
    (head seq : ℕ) (r : String) (v : ResourceVersion)
    → head ≤ seq
    → IsBounded head v
    → is_version_at r seq v ≡ is_open_of r v
covers-open head seq r v le b = elim (Option-cases v.valid_until_seq) [
  | inl e ↦ rw e (ground (arith, b.begun))
  | inr (u, e) ↦ let (_, ended) = b.ended u e in rw e (ground arith)
]

filter-within :
    (r : String) (seq : ℕ) (xs : List ResourceVersion)
    → filter (is_version_at r seq) xs ≡ filter (is_version_at r seq) (filter (is_of r) xs)
filter-within r seq xs =
    sym (filter-filter (is_of r) (is_version_at r seq) (λ v h. and_left _ _ h) xs)

module _ {p : Platform} {db db' : EpochDatabase} {input : WorldCommitInput} {wc : WorldCommit}
    (k : Committed p db input wc db') where
  abbrev pub next_seq : ℕ
  next_seq = db.head_seq + 1

  abbrev closed : List ResourceVersion
  closed = close_versions next_seq k.st.to_close db.resource_versions

  after-versions : db'.resource_versions ≡ closed ++ k.st.pending
  after-versions = ap (λ d. d.resource_versions) k.written

  pub after-head : db'.head_seq ≡ next_seq
  after-head = ap (λ d. d.head_seq) k.written

  after-versions_at :
      (r : String) (seq : ℕ)
      → versions_at db' r seq
        ≡ filter (is_version_at r seq) closed ++ filter (is_version_at r seq) k.st.pending
  unfolding versions_at
  after-versions_at r seq =
      ap (filter (is_version_at r seq)) after-versions
      ∙ filter-append (is_version_at r seq) closed k.st.pending

  not_yet :
      (r : String) (seq : ℕ) → seq ≤ db.head_seq → filter (is_version_at r seq) k.st.pending ≡ []
  not_yet r seq le =
      filter_none (is_version_at r seq) (IsFresh next_seq) (λ v f. ground (arith, f.0, f.1))
        k.st.pending k.staged.fresh

  pending_of :
      (r : String) (seq : ℕ)
      → next_seq ≤ seq
      → filter (is_version_at r seq) k.st.pending ≡ filter (is_of r) k.st.pending
  pending_of r seq le =
      filter_congr (is_version_at r seq) (is_of r) (IsFresh next_seq)
        (λ v f. ground (arith, f.0, f.1)) k.st.pending k.staged.fresh

  pub history_of :
      (r : String) (seq : ℕ)
      → seq ≤ db.head_seq
      → map content (versions_at db' r seq) ≡ map content (versions_at db r seq)
  unfolding versions_at
  history_of r seq le =
      rw (after-versions_at, not_yet r seq le, append-nil)
        (close_versions-history r next_seq seq k.st.to_close db.resource_versions (omega arith))

  pub unchanged_of :
      (r : String) (seq : ℕ)
      → changes_resource input r ≡ false
      → versions_at db' r seq ≡ versions_at db r seq
  unfolding versions_at
  unchanged_of r seq h =
      let unseen = k.seen r ∙ h in
      let none_pending =
        empty_of_length (filter (is_of r) k.st.pending)
          (rw (k.staged.one_each r, unseen) (omega arith)) in
      after-versions_at r seq
      ∙ rw
          (
            filter-within r seq closed,
            filter-within r seq k.st.pending,
            none_pending,
            k.staged.untouched r unseen,
            append-nil,
          )
          (sym (filter-within r seq db.resource_versions))

  module _ (w : IsChronological db) where
    closed-IsBounded : All (IsBounded next_seq) closed
    closed-IsBounded =
        close_versions-IsBounded db.head_seq k.st.to_close db.resource_versions w.bounded

    closed_then :
        (r : String) (seq : ℕ)
        → next_seq ≤ seq
        → changes_resource input r ≡ true
        → filter (is_version_at r seq) closed ≡ []
    closed_then r seq le h =
        filter_congr (is_version_at r seq) (is_open_of r) (IsBounded next_seq)
          (λ v b. covers-open next_seq seq r v le b) closed closed-IsBounded
        ∙ k.staged.closed r (k.seen r ∙ h)

    changed_of :
        (r : String) (seq : ℕ)
        → next_seq ≤ seq
        → changes_resource input r ≡ true
        → versions_at db' r seq ≡ filter (is_of r) k.st.pending
    changed_of r seq le h =
        after-versions_at r seq ∙ rw (closed_then r seq le h, pending_of r seq le)

    at_most_one_after : (r : String) (seq : ℕ) → length (versions_at db' r seq) ≤ 1
    at_most_one_after r seq = elim (dec_le seq db.head_seq) [
      | yes le ↦
          let same = ap length (history_of r seq le) in
          let before = length-map content (versions_at db r seq) in
          let after = length-map content (versions_at db' r seq) in
          omega (arith, w.unique r seq, same, before, after)
      | no gt ↦ elim (Bool-cases (changes_resource input r)) [
        | inl h ↦
            rw (changed_of r seq (omega arith) h, k.staged.one_each r, k.seen r, h) (omega arith)
        | inr h ↦ rw (unchanged_of r seq h) (w.unique r seq)
      ]
    ]

    pub after-IsChronological : IsChronological db'
    after-IsChronological = record {
      bounded =
          rw (after-versions, after-head)
            (All-append (IsBounded next_seq) closed k.st.pending closed-IsBounded (
              All-map
                (λ v f. record { begun = omega (arith, f.0); ended = λ u e. absurd (cc (f.1)) })
                k.st.pending k.staged.fresh));
      unique = at_most_one_after;
    }

    pub after-changed :
        (c : WorldChangeInput) (seq : ℕ)
        → Member c input.changes
        → next_seq ≤ seq
        → versions_at db' c.resource_id seq ≡ next_version p next_seq c ∷ []
    unfolding next_version
    after-changed c seq m le =
        let h =
          any_of_Member (λ d. d.resource_id == c.resource_id) input.changes c m
            (beq_refl c.resource_id) in
        let one = k.staged.one_each c.resource_id in
        changed_of c.resource_id seq le h
        ∙ filter_single (is_of c.resource_id) k.st.pending _
            (rw (k.staged.one_each c.resource_id, k.seen c.resource_id, h) (omega arith))
            (k.pending c m) (beq_refl c.resource_id)
