-- ===== src/Auth.antt =====
-- internal/auth: users, sessions and token families.
pub mod Repository
pub mod Password
pub mod Service
pub mod Sessions
pub mod Rotation
pub mod Access
pub mod Replay
pub mod Credentials
pub mod Registration
pub mod SignIn
pub mod Users
pub mod SignUp
pub mod Enrolment
pub mod Reentry
pub mod Csrf
pub mod Untouched
pub mod Families
pub mod Spent
pub mod Refused
pub mod System
pub mod Cookies
pub mod Handler
