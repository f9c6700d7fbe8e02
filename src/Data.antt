-- ===== src/Data.antt =====
-- app/data: the privacy-safe store.
pub mod Store
pub mod Usage
pub mod Events
pub mod Deletion
pub mod Retention
