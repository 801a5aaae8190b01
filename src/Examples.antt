-- ===== src/Examples.antt =====
-- Runs on concrete data: a manager with the store in memory, a breaker, a gate, a log, a page, a plan
-- of subtasks, a placement of layers, a pool of workers.
pub mod TaskData
pub mod Tasks
pub mod Replicas
pub mod Requests
pub mod Logs
pub mod Pages
pub mod Plans
pub mod Placements
pub mod Pools
pub mod Elections
pub mod Nodes
pub mod Reservations
