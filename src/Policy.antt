-- ===== src/Policy.antt =====
-- policy/: the rule formats and the two engines.
mod Tests
pub mod Gates
pub mod Checks
pub mod Rules
pub mod StaticEngine
pub mod DbRules
pub mod DbEngine
pub mod Example
pub mod Parity
pub mod Seeded
