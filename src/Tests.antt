-- ===== src/Tests.antt =====
-- Concrete runs: a small database, a plain transaction driver, and the theorems applied to them.
pub mod Fixtures
pub mod MembershipRuns
pub mod AuthRuns
pub mod SessionRuns
pub mod OtherRuns
pub mod ServiceRuns
pub mod StartRuns
