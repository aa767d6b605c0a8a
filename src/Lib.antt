-- ===== src/Lib.antt =====
-- EpochGuard: the evidence core of apps/server/src/epochguard.
--
-- EpochGuard lets three agents (inventory, budget, policy) observe a world whose resources change,
-- and releases a protected Effect only if their ALLOW decisions rest on observations that are
-- jointly valid at the current head of the world. The parts and how they interact:
--
-- * The contract, apps/server/src/epochguard/types.ts, in Contract: States and RecordStates hold
--   the enums, Identifiers and Paths the scalar schemas, Values and Json `JsonValue`,
--   `canonicalJson` and the digests, Action the Action and the role queries, Records and Database
--   the records, Schemas and EvidenceSchemas what their `safeParse` checks beyond the types.
-- * The world ledger, world-ledger.ts, in World: `commit` closes the open versions of the resources
--   that it changes and appends the next ones; `current_version`, `resolve_version_at` and
--   `resolve_by_identity` are its queries. Refine compares it with an abstract timeline.
-- * The role rules, evidence-pack-writer.ts, in Verdict: `authoritative_verdict`.
-- * The decision parser, decision-parser.ts, in Decision: Envelope holds `parse_decision_envelope`,
--   Binding `resolve_bound_decision` and its assertions, Subject and Consume
--   `normalize_and_consume`. Bound, Consumed, Once and Accepted hold the proofs.
-- * The joint-validity validator, joint-validity-validator.ts, in Validator: it resolves the three
--   active Decisions to intervals of the ledger (`resolve_intervals`) and classifies them
--   (Outcome: `classify`).
-- * The store, epoch-store.ts, in Store: `mutate` runs a mutation on the database, parses and saves
--   the result and publishes it. Initialize holds `initialize`. The file
--   is the database that its text stands for, so printing and parsing JSON is left out.
-- * The effect gate, effect-gate.ts, in Gate: Base and Evidence hold what its loops share, Plans the
--   closure over a completed RefreshPlan, Existing the return of an Effect, Release the evidence of a
--   commit, Commit the mutation of `commitProtectedEffect`, and Protected the operation on the
--   store. Ready, Returned, Bindings, Current, Released, Outcomes, Guarantees, Race and Retried hold
--   the proofs.
-- * The receipt issuer, receipt-issuer.ts, in Receipt: `issue` observes the ledger at the head for an
--   Assignment, and `resolve_receipt_version` finds the version behind a Receipt. Lookup and Issued
--   hold what an issue has found, Once and Lasting the guarantees.
-- * The refresh planner, refresh-planner.ts, in Refresh: Owners holds `refresh_set`, Gather and Plan
--   `build_refresh_plan`, Claim and Closure the guards of a claim, Request the mutation and the whole
--   of `claimRefreshPlan`. Excluded, Bindings, Evidence, Warrant, Stale, Outcome, Agreed, Written,
--   Once and Change hold the proofs.
-- * The session view, session-view-builder.ts, in View: `assert_effect_ledger_closure`, the check of
--   the Effects that a Session shows; Backed holds its proof.
--
-- How the code is read. A function that throws is a Result with the thrown reason; the texts of
-- messages are not modelled. A mutation of the database is a function that returns the next
-- database, and an update of one found record is `update_first`. A `number` that a schema restricts
-- to non-negative safe integers is a natural number, and the schema keeps its bound, 2^53 - 1. Node's
-- crypto, JSON texts of scalars, dates and ISO timestamps are the fields of Platform, without any
-- law; `verificationLatencyMs`, a number that is not negative, is a natural number. A resolver of
-- versions answers a version or nothing; one that throws makes the mutation of the gate throw, which
-- changes nothing, and is not distinguished. No loop of the code needs fuel: all are structural
-- recursions on lists.
--
-- A rejected output's redaction, a chain of regular expressions in decision-parser.ts, is the
-- parameter `redact` of a consumption; JSON.parse of an output is its parameter `parse_json`.
--
-- Not modelled: that redaction, the construction of evidence packs, the session service, the run
-- observer, the rest of the dashboard views, the diagnostics, and the input and output around them
-- (HTTP routes, agent processes, the web client).
pub mod Prelude
pub mod Platform
pub mod Contract
pub mod Store
pub mod World
pub mod Verdict
pub mod Decision
pub mod Receipt
pub mod Refresh
pub mod Validator
pub mod Gate
pub mod View
pub mod Tests
