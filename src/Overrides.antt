-- ===== src/Overrides.antt =====
-- What app/rules_store and app/knowledge_store share: the rows of a table of overrides, the loop that
-- reads them, and the overlay of the overrides on the shipped entries. An entry is a rule or a card.
pub mod Merge
pub mod Table
pub mod Collected
