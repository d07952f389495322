-- ===== src/Membership.antt =====
-- internal/membership: who belongs to an organization, with which role, and who may change that.
pub mod Repository
pub mod Service
pub mod Handler
pub mod Owners
pub mod OwnersKept
pub mod Guards
pub mod LastOwner
pub mod OwnerOnly
pub mod Invitations
pub mod Issue
pub mod Grants
pub mod System
pub mod Isolation
pub mod Atomic
pub mod Once
pub mod Valid
pub mod Preserves
