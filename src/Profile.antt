-- ===== src/Profile.antt =====
-- The page of one's own account (components/Users.js): the form of the password and that of tokens.
pub mod Passwords
pub mod Lengths
pub mod Tokens
pub mod Sent
mod Tests
