-- ===== src/TaskManager/Consistency.antt =====
-- internal/taskmgr: which states of its subtasks go with the state of a task, whatever the callers
-- do and the store answers.
pub mod Lists
pub mod Steps
pub mod Runs
