-- ===== src/Receipt/Once.antt =====
-- What `ReceiptIssuer.issue` of apps/server/src/epochguard/receipt-issuer.ts guarantees.
use epochguard.Prelude.{
  ◌≡◌, ◌∙◌, false, List, [], ◌∷◌, ◌++◌, any, ok, string_eq, ◌||◌, or_left, or_right, IsUniqueBy,
  append-IsUniqueBy, filter_of_any, String, Bool, refl, arith,
}
use epochguard.Platform.{Platform}
use epochguard.Contract.Action.{query_role}
use epochguard.Contract.Records.{ObservationReceipt}
use epochguard.Contract.Database.{EpochDatabase}
use epochguard.World.{resource_id_for, versions_at}
use epochguard.Receipt.{
  IssueInput, IssuePorts, IssuedObservation, resolve_receipt_version, new_receipt, issue,
}
use epochguard.Receipt.Issued.{issue-Issued}
use epochguard.Receipt.Lookup.{resolve_receipt_version-receipts}

any-or :
    {A : Type 0} (f g : A → Bool) (xs : List A)
    → any (λ x. f x || g x) xs ≡ false
    → (any f xs ≡ false) × (any g xs ≡ false)
any-or f g [] h = (refl, refl)
any-or f g (x ∷ xs) h =
    let rest = any-or f g xs (or_right (f x || g x) (any (λ x. f x || g x) xs) h) in
    let here = or_left (f x || g x) (any (λ x. f x || g x) xs) h in
    (ground (arith, rest.0), ground (arith, rest.1))

-- No two Receipts share an identifier, an Assignment or a nonce.
pub record IsIssuedOnce (rs : List ObservationReceipt) : Type 0 where
  pub by_receipt : IsUniqueBy (λ r. r.receipt_id) rs
  pub by_assignment : IsUniqueBy (λ r. r.run_assignment_id) rs
  pub by_nonce : IsUniqueBy (λ r. r.nonce) rs

module _ (p : Platform) (ports : IssuePorts) (db : EpochDatabase) (input : IssueInput)
    {o : IssuedObservation} {db' : EpochDatabase} (h : issue p ports db input ≡ ok (o, db')) where
  -- A Receipt that the issuer returns resolves in the database that it leaves, to the very
  -- ResourceVersion that it returned beside it. That version is the only one valid at the head for
  -- the resource of the query, the Receipt binds it to the Assignment at that head, and but for the
  -- Receipt added at the end the database is as before.
  pub resolve_receipt_version-issue :
      (resolve_receipt_version p db' o.receipt ≡ ok o.resource_version)
      × (o.receipt ≡ new_receipt p ports db input o.resource_version)
      × (db' ≡ record db { receipts = db.receipts ++ o.receipt ∷ [] })
      × ((resource : String)
          → resource_id_for p (query_role input.query) input.query.entity_key ≡ ok resource
          → versions_at db resource db.head_seq ≡ o.resource_version ∷ [])
  resolve_receipt_version-issue =
      let k = issue-Issued p ports db input h in
      (
        rw k.written (
            resolve_receipt_version-receipts p db (db.receipts ++ o.receipt ∷ []) o.receipt
            ∙ k.resolved),
        k.made,
        k.written,
        λ resource looked.
            let same : k.resource ≡ resource = ground (arith, looked, k.looked_up) in
            rw (← same) (k.at_head),
      )

  -- The issuer keeps the Receipts of a store distinct: if no two share an identifier, an Assignment
  -- or a nonce before, none do after it returns.
  pub issue-IsIssuedOnce : IsIssuedOnce db.receipts → IsIssuedOnce db'.receipts
  issue-IsIssuedOnce once =
      let k = issue-Issued p ports db input h in
      let (ids, assignments) = any-or _ _ db.receipts k.unused_ids in
      rw k.written (record {
        by_receipt =
            append-IsUniqueBy (λ r. r.receipt_id) db.receipts o.receipt once.by_receipt
              (filter_of_any _ db.receipts ids);
        by_assignment =
            append-IsUniqueBy (λ r. r.run_assignment_id) db.receipts o.receipt once.by_assignment
              (filter_of_any _ db.receipts assignments);
        by_nonce =
            append-IsUniqueBy (λ r. r.nonce) db.receipts o.receipt once.by_nonce
              (filter_of_any _ db.receipts k.unused_nonce);
      })
