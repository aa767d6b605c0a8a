-- ===== src/Gate.antt =====
-- The effect gate, apps/server/src/epochguard/effect-gate.ts: its results, its rejections and the
-- frozen registrations. Evidence, refresh plans, existing effects and the commit itself are in the
-- modules below. The texts of messages are not modelled.
pub mod Base
pub mod Evidence
pub mod Plans
pub mod Existing
pub mod Release
pub mod Commit
pub mod Ready
pub mod Returned
pub mod Bindings
pub mod Current
pub mod Released
pub mod Outcomes
pub mod Guarantees
pub mod Race
pub mod Retried
pub mod Protected
