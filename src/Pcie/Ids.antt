-- ===== src/Pcie/Ids.antt =====
-- kernel/drivers/pcie/src/capability/standard.rs: the numbers of capabilities.
use mars.Prelude.{ℕ, Bool, true, false, ◌==◌, ◌&&◌, if◌then◌else◌}

pub data StandardCapabilityId : Type 0 where
  power_management : StandardCapabilityId
  agp : StandardCapabilityId
  vpd : StandardCapabilityId
  slot_id : StandardCapabilityId
  msi : StandardCapabilityId
  compact_pci_hot_swap : StandardCapabilityId
  pci_x : StandardCapabilityId
  hyper_transport : StandardCapabilityId
  vendor_specific : StandardCapabilityId
  debug : StandardCapabilityId
  compact_pci_central_resource : StandardCapabilityId
  pci_hot_plug : StandardCapabilityId
  pci_bridge_subsystem_vendor : StandardCapabilityId
  agp8x : StandardCapabilityId
  secure_device : StandardCapabilityId
  pci_express : StandardCapabilityId
  msi_x : StandardCapabilityId
  sata : StandardCapabilityId
  advanced_features : StandardCapabilityId
  enhanced_allocation : StandardCapabilityId
  unknown : ℕ → StandardCapabilityId

unfoldable pub from_u8 : ℕ → StandardCapabilityId
from_u8 v =
    if v == 1
    then power_management
    else if v == 2
    then agp
    else if v == 3
    then vpd
    else if v == 4
    then slot_id
    else if v == 5
    then msi
    else if v == 6
    then compact_pci_hot_swap
    else if v == 7
    then pci_x
    else if v == 8
    then hyper_transport
    else if v == 9
    then vendor_specific
    else if v == 10
    then debug
    else if v == 11
    then compact_pci_central_resource
    else if v == 12
    then pci_hot_plug
    else if v == 13
    then pci_bridge_subsystem_vendor
    else if v == 14
    then agp8x
    else if v == 15
    then secure_device
    else if v == 16
    then pci_express
    else if v == 17
    then msi_x
    else if v == 18
    then sata
    else if v == 19
    then advanced_features
    else if v == 20
    then enhanced_allocation
    else unknown v

-- The number that a value stands for, and whether it is one of the unknown ones.
abbrev pub standard_code : StandardCapabilityId → ℕ
standard_code power_management = 1
standard_code agp = 2
standard_code vpd = 3
standard_code slot_id = 4
standard_code msi = 5
standard_code compact_pci_hot_swap = 6
standard_code pci_x = 7
standard_code hyper_transport = 8
standard_code vendor_specific = 9
standard_code debug = 10
standard_code compact_pci_central_resource = 11
standard_code pci_hot_plug = 12
standard_code pci_bridge_subsystem_vendor = 13
standard_code agp8x = 14
standard_code secure_device = 15
standard_code pci_express = 16
standard_code msi_x = 17
standard_code sata = 18
standard_code advanced_features = 19
standard_code enhanced_allocation = 20
standard_code (unknown v) = v

abbrev is_known_standard : StandardCapabilityId → Bool
is_known_standard (unknown v) = false
is_known_standard other = true

-- The derived equality.
unfoldable pub same_standard : StandardCapabilityId → StandardCapabilityId → Bool
same_standard a b =
    standard_code a == standard_code b
    && (if is_known_standard a
        then is_known_standard b
        else if is_known_standard b
        then false
        else true)
