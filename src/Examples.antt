-- ===== src/Examples.antt =====
-- The theorems at work on concrete inputs.
mod Fixtures
mod Checks
mod Drafts
mod Lookups
mod Rows
mod Stores
mod Cookies
mod Visits
mod Editors
mod Ids
