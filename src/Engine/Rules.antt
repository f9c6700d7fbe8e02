-- ===== src/Engine/Rules.antt =====
-- app/engine/rules: the deterministic keyword rules and the structural signals.
pub mod Tables
pub mod Pack
pub mod Yaml
pub mod Loader
pub mod Matching
pub mod Signals
pub mod Passes
