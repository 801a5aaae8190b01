-- ===== src/Scheduler.antt =====
-- internal/scheduler: the subtasks of a plan, their assignment to nodes, and the task graph.
pub mod Model
pub mod Graph
pub mod Search
pub mod Validation
pub mod Sorting
