-- ===== src/Engine/Knowledge.antt =====
-- app/engine/knowledge: reviewed cards, their retrieval, and the wording that they compose.
pub mod Types
pub mod Ranking
pub mod Retrieve
pub mod Compose
pub mod Loader
