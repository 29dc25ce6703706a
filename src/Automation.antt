-- ===== src/Automation.antt =====
-- app/automation: the cycle, its lock, its retries and its runs.
pub mod Retry
pub mod Lock
pub mod Store
pub mod Repository
pub mod Pipeline
pub mod Service
