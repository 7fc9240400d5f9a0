-- ===== src/Tests.antt =====
-- Runs at fixed inputs, and the theorems applied to such inputs.
mod Block
mod Lpi
mod Pages
mod Mmap
mod Slab
mod Buddy
mod Sync
mod Scheduler
mod Aml
mod Resources
mod Locks
mod Names
mod Sleeping
mod ThreadIds
mod Paging
mod Pcie
mod Devices
mod Pointer
