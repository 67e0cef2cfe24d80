-- ===== src/Execution.antt =====
-- src/execution: the actions that wait for server messages, and the storage that keeps them.
pub mod Heap
pub mod Actions
pub mod Storage
pub mod Dispatch
pub mod FutureState
