-- ===== src/System.antt =====
-- The calls of all services together, as one transition system.
pub mod Provisioned
pub mod Governed
pub mod Statements
pub mod Organizations
pub mod Tenants
pub mod Accounts
pub mod Calls
pub mod Sessions
