-- ===== src/Paging.antt =====
-- klib/src/pm/page/mapper.rs: the page tables of a 48-bit address space with pages of 16 KiB. An entry
-- and the index of an address in a table are of the crate aarch64_cpu_ext: `Tte` has what the code calls
-- of it. The tables are a memory by pointer and index. `TableAllocator` is the trait of that name, over
-- a state of its own; both implementations in the repository fill a new table with zeros.
pub mod Tables
pub mod Laws
pub mod Walk
pub mod Paths
pub mod Write
pub mod Barren
pub mod Sound
pub mod Steps
pub mod Descend
pub mod Page
pub mod Map
pub mod Unlink
pub mod Unmap
pub mod Region
pub mod Release
pub mod Start
pub mod Trees
pub mod Freed
pub mod FreeAll
