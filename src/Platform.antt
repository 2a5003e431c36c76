-- ===== src/Platform.antt =====
-- The platform packages that every service shares (internal/platform).
pub mod Errors
pub mod Ensures
pub mod Database
pub mod Result
pub mod Keeps
pub mod Facts
pub mod Steady
pub mod Turns
