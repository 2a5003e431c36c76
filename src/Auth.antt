-- ===== src/Auth.antt =====
-- The auth package (internal/auth): accounts, sessions and verification codes.
pub mod Tokens
pub mod Queries
pub mod Accounts
pub mod Verification
pub mod Sessions
pub mod Ledger
pub mod Rotation
pub mod Race
pub mod Once
pub mod Replay
pub mod Guesses
pub mod Refusal
pub mod Success
mod Tests
