-- ===== src/Api.antt =====
-- The HTTP endpoints (app/api).
pub mod Answer
pub mod Auth
pub mod Merchants
pub mod Orders
pub mod Payments
pub mod BankCallback
