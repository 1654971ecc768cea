-- ===== src/Registry.antt =====
-- registry/: which tools an agent is shown.
mod Tests
pub mod Manifest
pub mod StaticRegistry
pub mod DbRegistry
pub mod Offers
pub mod Agreement
