-- ===== src/Team.antt =====
-- The pages of a team (components/Teams.js).
pub mod Audit
pub mod Parameters
pub mod Filters
pub mod Chosen
pub mod Pages
pub mod Members
pub mod Admins
mod Tests
