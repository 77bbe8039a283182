-- ===== src/Models.antt =====
-- The tables of the database (app/models, alembic/versions/0001_initial.py).
pub mod Payment
pub mod Ledger
pub mod Merchant
pub mod Database
