-- ===== src/Sandbox.antt =====
-- sandbox/: where an allowed call is run.
mod Tests
pub mod Subprocess
pub mod Docker
