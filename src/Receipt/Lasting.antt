-- ===== src/Receipt/Lasting.antt =====
-- A Receipt of apps/server/src/epochguard/receipt-issuer.ts and the commits of world-ledger.ts that
-- follow it.
use epochguard.Prelude.{ℕ, ◌+◌, ◌≤◌, String, ◌≡◌, refl, ◌∙◌, ap, true, [], ◌∷◌, map, leb, arith, ok}
use epochguard.Platform.{Platform}
use epochguard.Contract.Action.{query_role}
use epochguard.Contract.Database.{EpochDatabase}
use epochguard.World.{resource_id_for, versions_at}
use epochguard.World.Closing.{content}
use epochguard.World.History.{IsChronological}
use epochguard.World.Refine.{
  Timeline, timeline_of, extend, extend_all, Commits, commit_all, commit_all-refines,
}
use epochguard.Receipt.{IssueInput, IssuePorts, IssuedObservation, issue}
use epochguard.Receipt.Issued.{issue-Issued}

-- A run of commits leaves the past of the timeline as it is.
extend_all-past :
    (p : Platform) (head : ℕ) (cs : Commits) (t : Timeline) (r : String) (seq : ℕ)
    → seq ≤ head
    → extend_all p head cs t r seq ≡ t r seq
unfolding extend_all
extend_all-past p head [] t r seq le = refl
extend_all-past p head ((now, input) ∷ rest) t r seq le =
    let past : leb seq head ≡ true = ground (arith, le) in
    extend_all-past p (head + 1) rest (extend p head input.changes t) r seq (omega (arith, le))
    ∙ rw past

module _ (p : Platform) (ports : IssuePorts) (db : EpochDatabase) (input : IssueInput)
    {o : IssuedObservation} {db' : EpochDatabase} (h : issue p ports db input ≡ ok (o, db')) where
  -- What a Receipt observed lasts: after any run of World commits that return, on the chronological
  -- ledger that the issue left, the resource of the Receipt's query has at the Receipt's sequence
  -- still the one version that the issuer returned, but for its end.
  pub issue_lasting :
      IsChronological db'
      → (cs : Commits) (later : EpochDatabase) → commit_all p cs db' ≡ ok later
      → (resource : String)
      → resource_id_for p (query_role input.query) input.query.entity_key ≡ ok resource
      → timeline_of later resource o.receipt.observed_at_seq ≡ content o.resource_version ∷ []
  unfolding versions_at
  issue_lasting w cs later run resource looked =
      let k = issue-Issued p ports db input h in
      let (_, _, agrees) = commit_all-refines p cs db' later run w in
      let same : k.resource ≡ resource = ground (arith, looked, k.looked_up) in
      let head : db'.head_seq ≡ db.head_seq = ap (λ d. d.head_seq) k.written in
      let observed : o.receipt.observed_at_seq ≡ db.head_seq = ap (λ r. r.observed_at_seq) k.made in
      let versions : db'.resource_versions ≡ db.resource_versions =
        ap (λ d. d.resource_versions) k.written in
      agrees resource o.receipt.observed_at_seq
      ∙ extend_all-past p db'.head_seq cs (timeline_of db') resource o.receipt.observed_at_seq
          (omega (arith, head, observed))
      ∙ rw (versions, observed, ← same) (ap (map content) k.at_head)
