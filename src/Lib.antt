-- ===== src/Lib.antt =====
-- A model of parts of the Mars kernel (Rust, ARMv8), with proofs. Paths are from the root of the
-- repository.
--
-- Block: klib/src/block/mod.rs. Types has the errors, commands and requests; Nodes has `Consumer`,
--   `HardwareAdapter` and `Partition`, their methods as functions from a state to a result and the
--   new state. The traits `BlockDevice` and `Provider` are records of operations: no driver in the
--   repository implements the first, so a device is a parameter. A provider that several consumers
--   share through an `Arc<SleepingMutex<..>>` is one state passed from call to call, which is the
--   order in which the calls get the lock. `isize` sums wrap, as they do in the release profile.
--   Checks, Forward and Window are about single requests, Nested about stacked partitions, Access
--   and WriteBack about the counts of an adapter, and Sharing, Moves, Calls and Exclusion about any
--   sequence of calls by consumers that share an adapter. The texts of the errors and the names of
--   nodes are left out.
-- Lpi: klib/src/interrupt/gicv3/lpi_alloc.rs, all of it. A word of the bitmap is its list of bits. Bits,
--   Valid, Marks (`reserve` and `free`) and Alloc hold the lemmas.
-- Pages: klib/src/pm/page/mod.rs. Reserve is the loop of `PageAllocator::add_range` that sets pages
--   aside for metadata; its fuel of five rounds is enough for every range of less than 2 ^ 50 pages
--   of 16 KiB, which is the whole address space, wherever the loop ends at all. Memory has the state
--   of the allocator: the zones, the headers of free blocks and the bytes of metadata are three
--   memories by address, since the code never lets them overlap, and the lists are the pointers of
--   the headers. Buddy has `new`, `add_range`, `alloc_pages`, `free_pages` and `free_block_in_zone`,
--   each as one step, since the lock is left out; Requests has the other operations and the traits.
--   Loops over zones take fuel, and one more than the number of zones is enough. Invariant says what
--   holds of the state, with a set of pages that an operation is working on. Tiles and Links are about
--   blocks and lists; Unlink, Steps, Settle, Give, Regions and Split about the writes of the operations;
--   Ranks about the order of a list; Alloc about `alloc_pages`; Free, Merge, Coalesce and Release about
--   the merging of buddies; Zones about `free_pages`, Misuse about its panics; Carve, Extend and AddZone
--   about `add_range`; Reuse, History and Highest about the operations together. A debug assertion on
--   the kind of address and `transition_dmap` are left out.
-- Sync: klib/src/sync.rs. The locks are step relations: one step of a thread makes one atomic access, and
--   the accesses are taken to be sequentially consistent. RwLock is the readers-writer lock, whose
--   state is an `i32`, and RwSafety has its invariant; TicketLock, with TicketSafety, is the lock in
--   `FairSpinlock`; Spinlock is `UnfairSpinlock`. The unsafe `steal` of the last two is not
--   modelled. SleepingMutex is the lock of that name, with the scheduler's `block_current`.
-- Scheduler: klib/src/scheduler.rs and the parts of klib/src/thread.rs that it calls. The locks are left
--   out, so each function runs as one step; an assertion or an index that fails is the result
--   `panics`. Queues is about `spawn` and `register_cpu`, Dispatch about
--   `schedule`, and ThreadIds about the numbers of threads. `block_current` is
--   in Sync/SleepingMutex.
-- Aml: kernel/drivers/acpi-aml/src/parser.rs, and ast.rs, all of both. A method of the parser
--   is a function from the parser to a result and the parser. The nesting of data objects is bounded by
--   a fuel of one more than the bytes, which is enough, since each level reads a byte. Whether bytes
--   are valid UTF-8 (`core::str::from_utf8`) is a parameter. Moves and Progress follow the cursor;
--   PkgLength is about package lengths. Resources is kernel/drivers/acpi-aml/src/crs.rs, the templates
--   of resources; Templates is about them. An index or a slice out of range, a panic, is `none`
--   there. Text is the text of names and values, and Names is about it; `str::parse` is a parameter.
-- Vm: the rounding and the address conversions of klib/src/vm/mod.rs; Vm/Regions has its `MemoryRegion`.
-- Mmap: kernel/src/earlyinit/mem.rs, the functions on the firmware's memory map: `clone_and_process_mmap`
--   in Mmap, `populate_alloc_stage0` and `populate_alloc_stage1` in Mmap/Populate, which call the page
--   allocator of Pages. The types and attributes of the uefi crate are a parameter; its pages have
--   4096 bytes. The new map is taken not to overlap the one that is read, and the check of its layout
--   by that crate is left out. Cover is about the merging of entries, Room about the pages that the new
--   map takes, Result about both, and Ranges about what the allocator is given.
-- Slab: klib/src/vm/slab.rs, `alloc_impl` and `free_impl` of `SlabAllocator` on the page allocator of
--   Pages, which is a part of its state. Headers of pages and words of free objects are two memories by
--   address. Layout is about classes and the objects of a page, Cycle about taking and freeing an object.
--   `transition_dmap`, the getters and the calls that are only passed on are left out.
-- Paging: klib/src/pm/page/mapper.rs, the page tables. Tables has the operations; an entry and the index
--   of an address are of the crate aarch64_cpu_ext and a parameter (`Tte`), as are the allocator of
--   tables and the direct map. The tables are a memory by pointer and index. Laws has what is
--   relied on in the parameters. An allocator panics when it has no memory left, so `Room` is the
--   number of tables that are left. Walk has the translation and the invariant: a table is reached by
--   one path. Write, Barren and Sound are about the change of one entry, Steps and Descend about a
--   step down, Page, Map and Unlink, Unmap about one page, Region and Release about regions, and Start
--   about an empty root. Trees has the copy and the release of a whole tree, and Freed and FreeAll are
--   about the release.
-- Devices: klib/src/hardware/device.rs, the tree of devices. Devices/Tree says what a tree promises, and
--   Adding and Keeps are about `add_device`.
-- Pcie: kernel/drivers/pcie/src. Ecam has address.rs and ecam.rs: the state of the hardware and volatile
--   access to it are a parameter (`Mmio`). Bars is bar.rs; the loop has a fuel of seven rounds, which is
--   enough for six registers. Address is about addresses, Probe and Sizes about probing, and Total says
--   that probing returns. Ids and ExtendedIds have the numbers of capabilities, and Capabilities the
--   iterators over them, with a fuel of 65 for at most 64 items; Ends and ExtendedEnds are about them. Scan
--   is scan.rs, with a fuel of 256, since each bridge leads to a bus with a higher number; Buses is
--   about it. The formatted names of devices are a parameter, and the log is left out, as are the fields
--   of single capabilities and interrupt.rs.
-- Pointer: klib/src/strange.rs, `KernelPtr48`.
--
-- Not modelled: drivers, start-up code and machine setup, which are access to registers; and for now
-- the address spaces of user programs (klib/src/vm/user), the virtual file system and the matching of
-- drivers with devices.
pub mod Prelude
pub mod Block
pub mod Pages
pub mod Lpi
pub mod Sync
pub mod Scheduler
pub mod Aml
pub mod Pointer
pub mod Vm
pub mod Mmap
pub mod Slab
pub mod Paging
pub mod Devices
pub mod Pcie
mod Tests
