-- ===== src/Core.antt =====
-- The settings and the primitives of app/core that the services use.
pub mod Config
pub mod Security
pub mod Redis
pub mod Logging
