-- ===== src/Identity.antt =====
-- identity/
mod Tests
pub mod StaticBearer
pub mod SessionToken
