-- ===== src/TaskManager.antt =====
-- internal/taskmgr: submitted tasks from creation to their final result.
pub mod Model
pub mod Ids
pub mod Frontier
pub mod Persist
pub mod Transitions
pub mod Lifecycle
pub mod Attempts
pub mod Operations
pub mod Writes
pub mod Keeps
pub mod Counter
pub mod Fresh
pub mod Final
pub mod Kept
pub mod Numbering
pub mod Recovery
pub mod Consistency
pub mod Sync
pub mod MemoryStore
pub mod Dependencies
