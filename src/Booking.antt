-- ===== src/Booking.antt =====
-- The reservation lifecycle (internal/booking).
pub mod State
pub mod Models
pub mod Queries
pub mod Insert
pub mod Create
pub mod Transition
pub mod Operations
pub mod Overlap
pub mod History
pub mod Filed
pub mod Asked
pub mod Created
pub mod Answers
pub mod Moved
mod Tests
