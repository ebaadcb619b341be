-- ===== src/Sync.antt =====
-- system/synchronization: the locks and the objects built on them.
pub mod Cond
pub mod Semaphore
pub mod Event
pub mod CondVar
pub mod Lock
