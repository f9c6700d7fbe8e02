-- ===== src/Engine/Validate.antt =====
-- app/engine/validate.py: the deterministic safety validation of a draft. The model's draft is
-- typed, so `_as_evidence` has nothing to coerce.
pub mod Tables
pub mod Reason
pub mod Content
pub mod Blocks
pub mod Run
