-- ===== src/Pages.antt =====
-- klib/src/pm/page/mod.rs: the page allocator, a buddy allocator over zones.
pub mod Reserve
pub mod Memory
pub mod Buddy
pub mod Invariant
pub mod Tiles
pub mod Links
pub mod Unlink
pub mod Steps
pub mod Ranks
pub mod Settle
pub mod Give
pub mod Regions
pub mod Split
pub mod Alloc
pub mod Free
pub mod Merge
pub mod Coalesce
pub mod Release
pub mod Zones
pub mod Reuse
pub mod Carve
pub mod Extend
pub mod AddZone
pub mod History
pub mod Misuse
pub mod Requests
pub mod Highest
