-- ===== src/RulesStore.antt =====
-- app/rules_store: the operators' overrides of the rule pack.
pub mod Draft
pub mod Repo
pub mod Merge
pub mod Publish
