-- ===== src/Streams.antt =====
-- app/streams: the inbox of broker events, the lease of a listener, and reconciliation.
pub mod Lease
pub mod Inbox
pub mod Jobs
pub mod Processor
pub mod Operations
pub mod Ledger
pub mod Reconciliation
pub mod ReconcileJob
pub mod Supervisor
