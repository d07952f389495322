-- ===== src/Middleware.antt =====
-- internal/middleware: what stands between the router and a handler.
pub mod Auth
pub mod RateLimit
pub mod Headers
pub mod Stack
pub mod Secured
pub mod Limited
pub mod Guards
pub mod Limits
pub mod Origins
