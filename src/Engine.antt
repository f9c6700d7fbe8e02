-- ===== src/Engine.antt =====
-- app/engine: the analysis of one submitted situation.
pub mod Types
pub mod Url
pub mod Rules
pub mod Validate
pub mod Knowledge
pub mod Meta
pub mod Language
pub mod Format
pub mod Minimize
pub mod Qr
pub mod Pipeline
