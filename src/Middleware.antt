-- ===== src/Middleware.antt =====
-- Package middleware: what stands in front of the handlers.
pub mod Limiter
pub mod Auth
pub mod Headers
pub mod Tests
