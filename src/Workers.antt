-- ===== src/Workers.antt =====
-- The tasks of app/workers/tasks.py.
pub mod Delivery
pub mod Reconciliation
