-- ===== src/Audit.antt =====
-- audit/: the hash-chained log.
mod Tests
pub mod Records
pub mod Dlp
pub mod Siem
pub mod WormLog
