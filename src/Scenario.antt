-- ===== src/Scenario.antt =====
-- One payment from the order to the settlement, on concrete rows, as tests of the model and as
-- instances of the theorems.
mod Data
mod Runs
mod Witnesses
mod Memory
mod Callbacks
mod Counting
mod Access
mod Tasks
mod Bodies
mod Outcomes
mod Retries
mod Application
