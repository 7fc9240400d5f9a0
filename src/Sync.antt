-- ===== src/Sync.antt =====
-- klib/src/sync.rs: the locks, as programs of threads that interleave at every shared access.
pub mod RwLock
pub mod RwSafety
pub mod TicketLock
pub mod TicketSafety
pub mod Spinlock
pub mod SleepingMutex
