-- ===== src/Decision.antt =====
-- Decisions of the role agents, apps/server/src/epochguard/decision-parser.ts.
pub mod Accepted
pub mod Once
pub mod Consumed
pub mod Consume
pub mod Subject
pub mod Envelope
pub mod Binding
pub mod Bound
