-- ===== src/Services.antt =====
-- The services of the gateway (app/services).
pub mod StateMachine
pub mod Accounts
pub mod Ledger
pub mod Books
pub mod Postings
pub mod Earnings
pub mod Mirror
pub mod Addresses
pub mod Order
pub mod Payment
pub mod Webhook
pub mod History
