-- ===== src/Execution.antt =====
-- app/execution: planning limit orders, the final risk check, and the execution of an order.
pub mod Dto
pub mod Planner
pub mod Risk
pub mod Store
pub mod Repository
pub mod Context
pub mod Service
pub mod Lifecycle
