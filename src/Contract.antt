-- ===== src/Contract.antt =====
-- The contract of apps/server/src/epochguard/types.ts: states, records, schemas, canonical forms.
pub mod States
pub mod RecordStates
pub mod Values
pub mod Json
pub mod Identifiers
pub mod Action
pub mod Records
pub mod Errors
pub mod Database
pub mod Paths
pub mod Schemas
pub mod EvidenceSchemas
