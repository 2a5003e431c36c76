-- ===== src/Scheduling.antt =====
-- Resources, opening hours, exceptions and slot generation (internal/scheduling).
pub mod Models
pub mod Slots
pub mod Windows
pub mod Cache
pub mod Hours
pub mod TimeOfDay
pub mod Availability
pub mod Schedule
mod Tests
mod HoursTests
mod DayTests
