-- ===== src/Pcie.antt =====
-- kernel/drivers/pcie/src: the configuration space of PCI Express, its base address registers, its
-- capabilities and the scan of its buses. Volatile access to memory is a parameter.
pub mod Ecam
pub mod Bars
pub mod Address
pub mod Probe
pub mod Sizes
pub mod Ids
pub mod ExtendedIds
pub mod Capabilities
pub mod Ends
pub mod ExtendedEnds
pub mod Total
pub mod Scan
pub mod Buses
