-- ===== src/Accounts.antt =====
-- The tables of people and their organizations, which the auth and tenant packages share.
pub mod Tables
