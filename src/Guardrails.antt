-- ===== src/Guardrails.antt =====
-- guardrails/: what goes into the model and what comes out of it.
mod Tests
pub mod Patterns
pub mod Tokens
pub mod RegexPii
pub mod Semantic
