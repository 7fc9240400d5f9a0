-- ===== src/Block.antt =====
-- klib/src/block/mod.rs: the block layer. Types has the errors, commands and requests, Nodes the
-- consumer, the hardware adapter and the partition over the interfaces of a device and a provider.
pub mod Types
pub mod Nodes
pub mod Checks
pub mod Forward
pub mod Window
pub mod Access
pub mod Sharing
pub mod Moves
pub mod Calls
pub mod Exclusion
pub mod WriteBack
pub mod Nested
