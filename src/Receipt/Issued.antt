-- ===== src/Receipt/Issued.antt =====
-- What `ReceiptIssuer.issue` of apps/server/src/epochguard/receipt-issuer.ts has found when it
-- returns, and the Receipt's resolution from then on.
use epochguard.Prelude.{
  ◌≡◌, ◌≢◌, Option, none, err, refl, ◌∙◌, ap, inl, inr, String, true, false, some, [], ◌∷◌, ◌++◌,
  arith, ◌==◌, string_eq, nat_eq, any, ok, ◌||◌, Result-cases,
}
use epochguard.Platform.{Platform}
use epochguard.Contract.Action.{query_role}
use epochguard.Contract.Records.{ResourceVersion}
use epochguard.Contract.Database.{EpochDatabase}
use epochguard.Contract.Schemas.{receipt_schema}
use epochguard.World.{resolve_version_at, resource_id_for, versions_at}
use epochguard.Receipt.{
  IssueInput, IssuePorts, IssuedObservation, resolve_receipt_version, ReceiptError,
  check_assignment, check_stored, new_receipt, observe, issue,
}
use epochguard.Receipt.Lookup.{
  resolve_version_at-found, resolve_receipt_version-found, only_revision,
}

-- What `observe` has found.
record Observed (p : Platform) (ports : IssuePorts) (db : EpochDatabase) (input : IssueInput)
    (o : IssuedObservation) : Type 0 where
  pub resource : String
  pub looked_up : resource_id_for p (query_role input.query) input.query.entity_key ≡ ok resource
  pub version : ResourceVersion
  pub current : resolve_version_at p db resource db.head_seq ≡ ok (some version)
  pub made :
      o ≡ record { receipt = new_receipt p ports db input version; resource_version = version }
  pub valid : receipt_schema p (new_receipt p ports db input version) ≡ true
  pub unused : any (λ c. c.nonce == ports.nonce) db.receipts ≡ false
  pub again : ResourceVersion
  pub resolved : resolve_receipt_version p db (new_receipt p ports db input version) ≡ ok again

module _ (p : Platform) (ports : IssuePorts) (db : EpochDatabase) (input : IssueInput)
    (o : IssuedObservation) (h : observe p ports db input ≡ ok o) where
  observe_guards :
      (resource : String) (found : Option ResourceVersion)
      → resource_id_for p (query_role input.query) input.query.entity_key ≡ ok resource
      → resolve_version_at p db resource db.head_seq ≡ ok found
      → (v : ResourceVersion) × (found ≡ some v)
        × (receipt_schema p (new_receipt p ports db input v) ≡ true)
        × (any (λ c. c.nonce == ports.nonce) db.receipts ≡ false)
        × ((w : ResourceVersion)
            → resolve_receipt_version p db (new_receipt p ports db input v) ≡ ok w
            → o ≡ record { receipt = new_receipt p ports db input v; resource_version = v })
        × ((e : ReceiptError)
            → resolve_receipt_version p db (new_receipt p ports db input v) ≢ err e)
  unfolding observe
  observe_guards resource none looked current = absurd (ground arith)
  observe_guards resource (some v) looked current =
      (v, refl, ground arith, ground arith, λ w e. ground arith, λ e r. ground arith)

  observe-Observed : Observed p ports db input o
  unfolding observe
  observe-Observed =
      elim (Result-cases (resource_id_for p (query_role input.query) input.query.entity_key)) [
        | inr (_, e) ↦ absurd (ground arith)
        | inl (resource, looked_up) ↦
            elim (Result-cases (resolve_version_at p db resource db.head_seq)) [
              | inr (_, e) ↦ absurd (ground arith)
              | inl (found, current) ↦
                  let (v, is_found, valid, unused, made, returns) =
                    observe_guards resource found looked_up current in
                  elim (Result-cases
                    (resolve_receipt_version p db (new_receipt p ports db input v))) [
                      | inr (e, failed) ↦ absurd (returns e failed)
                      | inl (w, resolved) ↦ record {
                        resource = resource;
                        looked_up = looked_up;
                        version = v;
                        current = rw (← is_found) current;
                        made = made w resolved;
                        valid = valid;
                        unused = unused;
                        again = w;
                        resolved = resolved;
                      }
                    ]
            ]
      ]

-- What stands behind an issued Receipt.
pub record Issued (p : Platform) (ports : IssuePorts) (db : EpochDatabase) (input : IssueInput)
    (o : IssuedObservation) (db' : EpochDatabase) : Type 0 where
  pub resource : String
  pub looked_up : resource_id_for p (query_role input.query) input.query.entity_key ≡ ok resource
  pub at_head : versions_at db resource db.head_seq ≡ o.resource_version ∷ []
  pub made : o.receipt ≡ new_receipt p ports db input o.resource_version
  pub valid : receipt_schema p o.receipt ≡ true
  pub resolved : resolve_receipt_version p db o.receipt ≡ ok o.resource_version
  pub unused_ids :
      any
        (λ c.
          c.receipt_id == o.receipt.receipt_id
          || c.run_assignment_id == o.receipt.run_assignment_id)
        db.receipts
      ≡ false
  pub unused_nonce : any (λ c. c.nonce == o.receipt.nonce) db.receipts ≡ false
  pub written : db' ≡ record db { receipts = db.receipts ++ o.receipt ∷ [] }

module _ (p : Platform) (ports : IssuePorts) (db : EpochDatabase) (input : IssueInput)
    {o : IssuedObservation} {db' : EpochDatabase} (h : issue p ports db input ≡ ok (o, db')) where
  issue_facts :
      (check_stored p db input ≡ ok tt)
      × (observe p ports db input ≡ ok o)
      × (db' ≡ record db { receipts = db.receipts ++ o.receipt ∷ [] })
  unfolding issue
  issue_facts = elim (Result-cases (check_assignment p input)) [
    | inr (_, e) ↦ absurd (ground arith)
    | inl (_, bound) ↦ elim (Result-cases (check_stored p db input)) [
      | inr (_, e) ↦ absurd (ground arith)
      | inl (_, stored) ↦ elim (Result-cases (observe p ports db input)) [
        | inr (_, e) ↦ absurd (ground arith)
        | inl (o', observed) ↦
            let (same, written) = chosen o' bound stored observed in
            (stored, rw (← same) observed, cc)
      ]
    ]
  ]
    where
      chosen :
          (o' : IssuedObservation)
          → check_assignment p input ≡ ok tt
          → check_stored p db input ≡ ok tt
          → observe p ports db input ≡ ok o'
          → (o' ≡ o) × (record db { receipts = db.receipts ++ o'.receipt ∷ [] } ≡ db')
      chosen o' bound stored observed = ground arith

  unused_facts :
      any
        (λ c.
          c.receipt_id == input.assignment.receipt_id
          || c.run_assignment_id == input.assignment.assignment_id)
        db.receipts
      ≡ false
  unfolding check_stored
  unused_facts = let stored = issue_facts.0 in ground arith

  again-version : (k : Observed p ports db input o) → k.again ≡ k.version
  again-version k =
      let (resource, looked, found) =
        resolve_receipt_version-found p db (new_receipt p ports db input k.version) k.again
          k.resolved in
      let same_resource : resource ≡ k.resource = ground (arith, looked, k.looked_up) in
      let (current, _) = resolve_version_at-found p db k.resource db.head_seq k.version k.current in
      only_revision k.resource k.version.source_revision db.head_seq db k.version k.again current
        refl (rw (← same_resource) found)

  pub issue-Issued : Issued p ports db input o db'
  issue-Issued =
      let (_, observed, written) = issue_facts in
      let k = observe-Observed p ports db input o observed in
      let (current, _) = resolve_version_at-found p db k.resource db.head_seq k.version k.current in
      record {
        resource = k.resource;
        looked_up = k.looked_up;
        at_head = rw k.made current;
        made = rw k.made refl;
        valid = rw k.made (k.valid);
        resolved = rw k.made (k.resolved ∙ ap ok (again-version k));
        unused_ids = rw k.made unused_facts;
        unused_nonce = rw k.made (k.unused);
        written = written;
      }
