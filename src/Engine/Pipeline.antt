-- ===== src/Engine/Pipeline.antt =====
-- app/engine/pipeline.py: one check, from the submitted input to its result and its database row.
pub mod Types
pub mod Shown
pub mod Calm
pub mod Content
pub mod Llm
pub mod Stages
pub mod Run
