-- ===== src/KnowledgeStore.antt =====
-- app/knowledge_store: cards edited by operators, and the knowledge base in force.
pub mod Draft
pub mod Repo
pub mod Merge
pub mod Publish
