-- ===== src/Tenant.antt =====
-- The tenant package (internal/tenant): members, invitations and the organization's scope.
pub mod Models
pub mod Queries
pub mod Members
pub mod Invitations
pub mod Access
pub mod Hiring
pub mod Placement
pub mod Hired
pub mod Roster
pub mod Owners
pub mod Staffing
pub mod Offers
pub mod Joining
pub mod Demotion
pub mod Scope
mod Tests
