-- ===== src/Aml.antt =====
-- kernel/drivers/acpi-aml/src: the reader of ACPI machine language and of resource templates.
pub mod Types
pub mod Reader
pub mod Parser
pub mod Moves
pub mod Progress
pub mod PkgLength
pub mod Resources
pub mod Templates
pub mod Text
pub mod Names
