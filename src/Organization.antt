-- ===== src/Organization.antt =====
-- internal/organization: tenants, their creation with an owner, and their soft deletion.
pub mod Repository
pub mod Service
pub mod Handler
pub mod Founding
pub mod Founded
pub mod Deletion
