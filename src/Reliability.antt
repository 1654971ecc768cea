-- ===== src/Reliability.antt =====
-- reliability/circuit_breaker.py
mod Tests
pub mod InMemory
pub mod Facade
pub mod Redis
