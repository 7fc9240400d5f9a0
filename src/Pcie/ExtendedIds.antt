-- ===== src/Pcie/ExtendedIds.antt =====
-- kernel/drivers/pcie/src/capability/extended.rs: the numbers of capabilities.
use mars.Prelude.{ℕ, Bool, true, false, ◌==◌, ◌&&◌, if◌then◌else◌}

pub data ExtendedCapabilityId : Type 0 where
  advanced_error_reporting : ExtendedCapabilityId
  virtual_channel_no_mfvc : ExtendedCapabilityId
  device_serial_number : ExtendedCapabilityId
  power_budgeting : ExtendedCapabilityId
  root_complex_link_declaration : ExtendedCapabilityId
  root_complex_internal_link_control : ExtendedCapabilityId
  root_complex_event_collector_endpoint : ExtendedCapabilityId
  multi_function_virtual_channel : ExtendedCapabilityId
  virtual_channel : ExtendedCapabilityId
  rcrb_header : ExtendedCapabilityId
  vendor_specific_extended : ExtendedCapabilityId
  acs : ExtendedCapabilityId
  ari : ExtendedCapabilityId
  ats : ExtendedCapabilityId
  single_root_io_virt : ExtendedCapabilityId
  multi_root_io_virt : ExtendedCapabilityId
  page_request_interface : ExtendedCapabilityId
  resizable_bar : ExtendedCapabilityId
  dynamic_power_allocation : ExtendedCapabilityId
  tph_requester : ExtendedCapabilityId
  latency_tolerance_reporting : ExtendedCapabilityId
  secondary_pci_express : ExtendedCapabilityId
  downstream_port_containment : ExtendedCapabilityId
  precision_time_measurement : ExtendedCapabilityId
  unknown_extended : ℕ → ExtendedCapabilityId

unfoldable pub from_u16 : ℕ → ExtendedCapabilityId
from_u16 v =
    if v == 1
    then advanced_error_reporting
    else if v == 2
    then virtual_channel_no_mfvc
    else if v == 3
    then device_serial_number
    else if v == 4
    then power_budgeting
    else if v == 5
    then root_complex_link_declaration
    else if v == 6
    then root_complex_internal_link_control
    else if v == 7
    then root_complex_event_collector_endpoint
    else if v == 8
    then multi_function_virtual_channel
    else if v == 9
    then virtual_channel
    else if v == 10
    then rcrb_header
    else if v == 11
    then vendor_specific_extended
    else if v == 13
    then acs
    else if v == 14
    then ari
    else if v == 15
    then ats
    else if v == 16
    then single_root_io_virt
    else if v == 17
    then multi_root_io_virt
    else if v == 19
    then page_request_interface
    else if v == 21
    then resizable_bar
    else if v == 22
    then dynamic_power_allocation
    else if v == 23
    then tph_requester
    else if v == 24
    then latency_tolerance_reporting
    else if v == 25
    then secondary_pci_express
    else if v == 29
    then downstream_port_containment
    else if v == 31
    then precision_time_measurement
    else unknown_extended v

-- The number that a value stands for, and whether it is one of the unknown ones.
abbrev pub extended_code : ExtendedCapabilityId → ℕ
extended_code advanced_error_reporting = 1
extended_code virtual_channel_no_mfvc = 2
extended_code device_serial_number = 3
extended_code power_budgeting = 4
extended_code root_complex_link_declaration = 5
extended_code root_complex_internal_link_control = 6
extended_code root_complex_event_collector_endpoint = 7
extended_code multi_function_virtual_channel = 8
extended_code virtual_channel = 9
extended_code rcrb_header = 10
extended_code vendor_specific_extended = 11
extended_code acs = 13
extended_code ari = 14
extended_code ats = 15
extended_code single_root_io_virt = 16
extended_code multi_root_io_virt = 17
extended_code page_request_interface = 19
extended_code resizable_bar = 21
extended_code dynamic_power_allocation = 22
extended_code tph_requester = 23
extended_code latency_tolerance_reporting = 24
extended_code secondary_pci_express = 25
extended_code downstream_port_containment = 29
extended_code precision_time_measurement = 31
extended_code (unknown_extended v) = v

abbrev is_known_extended : ExtendedCapabilityId → Bool
is_known_extended (unknown_extended v) = false
is_known_extended other = true

-- The derived equality.
unfoldable pub same_extended : ExtendedCapabilityId → ExtendedCapabilityId → Bool
same_extended a b =
    extended_code a == extended_code b
    && (if is_known_extended a
        then is_known_extended b
        else if is_known_extended b
        then false
        else true)
