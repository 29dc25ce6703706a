-- ===== src/Portfolio.antt =====
-- app/portfolio: target weights, the rebalance plan that reaches them, and its creation.
pub mod Dto
pub mod Optimizer
pub mod Planner
pub mod Store
pub mod Repository
pub mod Service
