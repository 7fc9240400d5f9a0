-- ===== src/Pcie/Scan.antt =====
-- kernel/drivers/pcie/src/scan.rs. The messages of the log are left out. `texts` makes the three texts
-- that name a device, from its numbers.
use mars.Prelude.{
  ℕ, zero, suc, ◌+◌, ◌/◌, ◌%◌, ◌^◌, ◌&&◌, none, some, List, [], ◌∷◌, ◌++◌, ltb, leb, ◌==◌,
  if◌then◌else◌,
}
use mars.Pages.Requests.{AddressTranslator}
use mars.Pages.Reserve.{Outcome, done, out_of_fuel}
use mars.Devices.{DeviceTree, add_device, other_device, regular}
use mars.Aml.Resources.{Resource, mmio}
use mars.Pcie.Ecam.{Bdf, Ecam, Mmio, read_u8, read_u16, ◌>>=◌}
use mars.Pcie.Bars.{BarType, memory32, memory64, io, probe_bars}

abbrev pub resource_of : BarType → List Resource
resource_of (memory32 address size pre) = mmio address ((address + size) % 2 ^ 64) ∷ []
resource_of (memory64 address size pre) = mmio address ((address + size) % 2 ^ 64) ∷ []
resource_of (io address size) = []

abbrev pub resources_of : List BarType → List Resource
resources_of [] = []
resources_of (bar ∷ bars) = resource_of bar ++ resources_of bars

module _ {S T : Type 0} (hw : Mmio S) (tr : AddressTranslator) (texts : ℕ → ℕ → ℕ → ℕ → List T)
    (e : Ecam) where
  -- What a scan changes: the tree and the hardware.
  abbrev pub State : Type 0
  State = DeviceTree T Resource × S

  -- `add_device` without a parent; there is no index that could be out of range.
  abbrev pub add_root : List T → List BarType → DeviceTree T Resource → DeviceTree T Resource
  add_root compat bars dt =
      elim (add_device none other_device compat (resources_of bars) regular dt) [
        | none ↦ dt
        | some (id, dt') ↦ dt'
      ]

  unfoldable pub scan_endpoint : Bdf → ℕ → ℕ → ℕ → ℕ → State → Outcome State
  scan_endpoint b vendor_id device_id class_code subclass (dt, s) =
      probe_bars hw tr e b s >>= λ (bars, s').
      done (add_root (texts vendor_id device_id class_code subclass) bars dt, s')

  -- `below` is the scan of a bus behind a bridge.
  unfoldable pub scan_function : (ℕ → State → Outcome State) → Bdf → State → Outcome State
  scan_function below b (dt, s) = read_u16 hw tr e b 0 s >>= λ vendor_id.
      read_u16 hw tr e b 2 s >>= λ device_id.
      let class_code = read_u8 hw tr e b 11 s in
      let subclass = read_u8 hw tr e b 10 s in
      let header_type = read_u8 hw tr e b 14 s % 8 in
      let secondary_bus = read_u8 hw tr e b 25 s in
      let subordinate_bus = read_u8 hw tr e b 26 s in
      if header_type == 0
      then scan_endpoint b vendor_id device_id class_code subclass (dt, s)
      else if header_type == 1 && ltb b.bus secondary_bus && leb secondary_bus subordinate_bus
      then below secondary_bus (dt, s)
      else done (dt, s)

  -- The functions of a device from `function` on.
  unfoldable pub scan_functions :
      (ℕ → State → Outcome State) → ℕ → ℕ → ℕ → ℕ → State → Outcome State
  scan_functions below zero bus device function st = done st
  scan_functions below (suc left) bus device function (dt, s) =
      let b : Bdf = record {
        segment = e.segment;
        bus = bus;
        device = device;
        function = function;
      } in
      let rest = scan_functions below left bus device (function + 1) in
      read_u16 hw tr e b 0 s >>= λ vendor.
      (if vendor == 65535 then done (dt, s) else scan_function below b (dt, s)) >>= rest

  -- The other functions of a device with several of them.
  unfoldable pub scan_others : (ℕ → State → Outcome State) → ℕ → ℕ → State → Outcome State
  scan_others below bus device (dt, s) =
      let b : Bdf = record { segment = e.segment; bus = bus; device = device; function = 0 } in
      if read_u8 hw tr e b 14 s / 128 % 2 == 1
      then scan_functions below 7 bus device 1 (dt, s)
      else done (dt, s)

  unfoldable pub scan_device : (ℕ → State → Outcome State) → ℕ → ℕ → State → Outcome State
  scan_device below bus device (dt, s) =
      let b : Bdf = record { segment = e.segment; bus = bus; device = device; function = 0 } in
      read_u16 hw tr e b 0 s >>= λ vendor.
      if vendor == 65535
      then done (dt, s)
      else scan_function below b (dt, s) >>= scan_others below bus device

  unfoldable pub scan_devices : (ℕ → State → Outcome State) → ℕ → ℕ → ℕ → State → Outcome State
  scan_devices below zero bus device st = done st
  scan_devices below (suc left) bus device st =
      scan_device below bus device st >>= scan_devices below left bus (device + 1)

  unfoldable pub scan_bus : ℕ → ℕ → State → Outcome State
  scan_bus zero bus st = out_of_fuel
  scan_bus (suc fuel) bus st = scan_devices (scan_bus fuel) 32 bus 0 st

  unfoldable pub enumerate_segment : State → Outcome State
  enumerate_segment st = scan_bus 256 e.start_bus st
