-- ===== src/Planner.antt =====
-- crates/rnmdb-planner: logical plans and the optimizer.
pub mod Logical
pub mod Optimizer
mod Tests
