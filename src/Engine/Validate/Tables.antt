-- ===== src/Engine/Validate/Tables.antt =====
-- The constants of app/engine/validate.py.
pub mod Words
pub mod Secrets
pub mod Claims
pub mod Filler
