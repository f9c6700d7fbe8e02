-- ===== src/Content.antt =====
-- app/content: the articles of the site and their covers.
pub mod Images
pub mod Repo
