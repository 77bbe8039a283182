-- ===== src/Middleware.antt =====
-- The middleware of the application (app/middleware), on the interface of the store it uses.
pub mod Redis
pub mod Idempotency
pub mod RateLimit
pub mod Stack
