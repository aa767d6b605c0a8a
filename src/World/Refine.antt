-- ===== src/World/Refine.antt =====
-- The world as a timeline: what apps/server/src/epochguard/world-ledger.ts promises of the valid
-- version of each resource at each sequence, and that commits, one after the other, keep it.
use epochguard.Prelude.{
  ℕ, ◌+◌, ◌≤◌, String, ◌≡◌, refl, sym, ◌∙◌, ap, inl, inr, false, Option, none, some, List, [], ◌∷◌,
  map, leb, leb→le, leb→gt, arith, ◌==◌, string_eq, find, any, Member, All-Member, length,
  bind-eq-ok, ok, Result, ◌>>=◌, Bool-cases, Option-cases, if◌then◌else◌, eq_of_beq,
}
use epochguard.Platform.{Platform}
use epochguard.Contract.Identifiers.{max_safe_integer}
use epochguard.Contract.Records.{ResourceVersion, WorldCommit}
use epochguard.Contract.Database.{EpochDatabase}
use epochguard.World.{
  WorldChangeInput, WorldCommitInput, WorldError, versions_at, commit, next_version,
}
use epochguard.World.Closing.{content, IsBounded}
use epochguard.World.Commit.{commit-Committed}
use epochguard.World.Ledger.{commit-IsChronological}
use epochguard.World.History.{
  IsChronological, after-IsChronological, after-head, history_of, unchanged_of, after-changed,
}

-- At each sequence, what the versions of a resource say that are valid there.
abbrev pub Timeline : Type 0
Timeline = String → ℕ → List ResourceVersion

abbrev pub timeline_of : EpochDatabase → Timeline
timeline_of db r seq = map content (versions_at db r seq)

abbrev pub change_of : List WorldChangeInput → String → Option WorldChangeInput
change_of changes r = find (λ c. c.resource_id == r) changes

abbrev pub replaced :
    Platform → ℕ → Option WorldChangeInput → List ResourceVersion → List ResourceVersion
replaced p next none old = old
replaced p next (some c) old = content (next_version p next c) ∷ []

-- The timeline after a commit at `head`: the past stands, and from the next sequence on each changed
-- resource has the version of its change.
abbrev pub extend : Platform → ℕ → List WorldChangeInput → Timeline → Timeline
extend p head changes t r seq =
    if leb seq head then t r seq else replaced p (head + 1) (change_of changes r) (t r seq)

found_change :
    (changes : List WorldChangeInput) (r : String) (c : WorldChangeInput)
    → change_of changes r ≡ some c
    → Member c changes × (c.resource_id ≡ r)
found_change [] r c h = cc
found_change (d ∷ ds) r c h = elim (Bool-cases (d.resource_id == r)) [
  | inl e ↦
      let same : d ≡ c = ground arith in
      (inl (sym same), ap (λ x. x.resource_id) (sym same) ∙ eq_of_beq d.resource_id r e)
  | inr e ↦ let (m, named) = found_change ds r c (ground arith) in (inr m, named)
]

no_change :
    (changes : List WorldChangeInput) (r : String)
    → change_of changes r ≡ none
    → any (λ c. c.resource_id == r) changes ≡ false
no_change [] r h = refl
no_change (d ∷ ds) r h = elim (Bool-cases (d.resource_id == r)) [
  | inl e ↦ absurd (ground arith)
  | inr e ↦ rw e (no_change ds r (ground arith))
]

module _ (p : Platform) (now : String) (db : EpochDatabase) (input : WorldCommitInput)
    {wc : WorldCommit} {db' : EpochDatabase} (h : commit p now db input ≡ ok (wc, db')) where
  -- A commit that returns on a chronological ledger extends the timeline by its changes: this is the
  -- whole of what the new ledger says, at every sequence and of every resource.
  pub commit_extends :
      IsChronological db
      → (r : String) (seq : ℕ)
      → timeline_of db' r seq ≡ extend p db.head_seq input.changes (timeline_of db) r seq
  commit_extends w r seq =
      let k = commit-Committed p now db input h in
      elim (Bool-cases (leb seq db.head_seq)) [
        | inl past ↦ rw past (history_of k r seq (leb→le seq db.head_seq past))
        | inr later ↦ elim (Option-cases (change_of input.changes r)) [
          | inl e ↦
              rw (later, e) (ap (map content) (unchanged_of k r seq (no_change input.changes r e)))
          | inr (c, e) ↦
              let (m, named) = found_change input.changes r c e in
              let gt = leb→gt seq db.head_seq later in
              rw (later, e)
                (rw (← named) (ap (map content) (after-changed k w c seq m (omega (arith, gt)))))
        ]
      ]

  -- Every sequence that a commit leaves in the ledger is a safe integer.
  pub commit_bounds :
      IsChronological db
      → (db'.head_seq ≤ max_safe_integer)
        × ((v : ResourceVersion)
            → Member v db'.resource_versions
            → (v.valid_from_seq ≤ max_safe_integer)
              × ((u : ℕ) → v.valid_until_seq ≡ some u → u ≤ max_safe_integer))
  commit_bounds w =
      let k = commit-Committed p now db input h in
      let head : db'.head_seq ≤ max_safe_integer =
        rw (after-head k) (leb→le (db.head_seq + 1) max_safe_integer k.next_safe) in
      (
        head,
        λ v m.
            let b =
              All-Member (IsBounded db'.head_seq) db'.resource_versions v
                ((after-IsChronological k w).bounded) m in
            (omega (arith, head, b.begun), λ u e. omega (arith, head, (b.ended u e).1)),
      )

-- Commits, one after the other.
abbrev pub Commits : Type 0
Commits = List (String × WorldCommitInput)

unfoldable pub commit_all : Platform → Commits → EpochDatabase → Result WorldError EpochDatabase
commit_all p [] db = ok db
commit_all p ((now, input) ∷ rest) db = do done ← commit p now db input; commit_all p rest done.1

unfoldable pub extend_all : Platform → ℕ → Commits → Timeline → Timeline
extend_all p head [] t = t
extend_all p head ((now, input) ∷ rest) t =
    extend_all p (head + 1) rest (extend p head input.changes t)

-- The ledger implements the timeline: after any run of commits that return, on a chronological
-- ledger, it is chronological, its head has moved by one for each commit, and it says at every
-- sequence of every resource what the timeline says after the same run.
pub commit_all-refines :
    (p : Platform) (cs : Commits) (db db' : EpochDatabase)
    → commit_all p cs db ≡ ok db'
    → IsChronological db
    → IsChronological db'
      × (db'.head_seq ≡ db.head_seq + length cs)
      × ((r : String) (seq : ℕ)
          → timeline_of db' r seq ≡ extend_all p db.head_seq cs (timeline_of db) r seq)
unfolding commit_all extend_all
commit_all-refines p [] db db' h w =
    let same : db ≡ db' = ground arith in
    (rw (← same) w, rw (← same) (omega arith), λ r seq. rw (← same) refl)
commit_all-refines p ((now, input) ∷ rest) db db' h w =
    let ((wc, mid), first, later) =
      bind-eq-ok (commit p now db input) (λ done. commit_all p rest done.1) h in
    let (chronological, head, _) = commit-IsChronological p now db input first w in
    let (w', head', agrees) = commit_all-refines p rest mid db' later chronological in
    (
      w',
      head' ∙ rw head (omega arith),
      λ r seq.
          agrees r seq
          ∙ ap (λ n. extend_all p n rest (timeline_of mid) r seq) head
          ∙ ap (λ t. extend_all p (db.head_seq + 1) rest t r seq)
              (λ i r' seq'. commit_extends p now db input first w r' seq' i),
    )
