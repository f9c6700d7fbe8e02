-- ===== src/Web.antt =====
-- app/web: the browser's channel. The check, the session cookie, the admin's gate and editor of rules,
-- and the controls against abuse.
pub mod Cookie
pub mod Session
pub mod Admin
pub mod Abuse
pub mod Rules
pub mod Check
pub mod Origin
pub mod Gate
pub mod Login
pub mod Cards
pub mod Posts
pub mod Editors
