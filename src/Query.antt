-- ===== src/Query.antt =====
-- src/query: planning and execution of statements.
pub mod Plan
pub mod Planner
pub mod Physical
pub mod Eval
pub mod Sort
pub mod Exec
pub mod Build
pub mod Select
pub mod Directory
mod Tests
