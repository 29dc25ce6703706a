-- ===== src/Checks.antt =====
-- The theorems at concrete inputs.
mod Data
mod Execution
mod Automation
mod Streams
mod Portfolio
mod Reconciliation
mod Supervisor
mod Jobs
mod Admin
mod Signals
mod Broker
