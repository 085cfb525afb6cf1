-- ===== src/Providers.antt =====
-- The page of the providers of OAuth (components/OAuthAdmin.js).
pub mod Slug
pub mod Slugs
pub mod Form
pub mod Canonical
pub mod History
mod Tests
