-- ===== src/Tests/Pcie.antt =====
-- Inputs for Pcie: a function with one window of 2 GiB, whose base is 0 or 2 GiB.
use mars.Pcie.Ends.{first_with, Visits, find_capability-ends}
use mars.Pcie.Buses.{enumerate_segment-returns}
use mars.Pcie.ExtendedEnds.{next_extended-panics}
use mars.Pages.Reserve.{done, panic}
use mars.Pcie.Ecam.{read_u16, write_u16, read_u32, write_u32}
use mars.Pcie.Bars.{memory32_bar}
use mars.Pcie.Scan.{enumerate_segment}
use mars.Aml.Resources.{Resource}
use mars.Devices.{DeviceTree, new_tree, DeviceNode}
use mars.Pcie.Capabilities.{
  ExtendedCapIter, next_extended, new_standard, all_standard, find_capability,
}
use mars.Pcie.Ids.{StandardCapabilityId, msi}
use mars.Pcie.Address.{IsBdf, config_address-apart}
use mars.Pcie.Sizes.{Registers, bar_of, narrow_window, probe_bar-Registers}
use mars.Prelude.{
  ℕ, zero, suc, ◌+◌, ◌/◌, ◌%◌, ◌^◌, ◌≤◌, ◌<◌, ◌≡◌, refl, Bool, true, false, some, List, [], ◌∷◌,
  ◌++◌, arith, ◌==◌, if◌then◌else◌, length,
}
use mars.Pages.Requests.{AddressTranslator}
use mars.Pcie.Ecam.{Bdf, Ecam, Mmio, peek, poke, config_address, offset_ptr, ◌>>=◌}
use mars.Pcie.Bars.{bar_offset, probe_bar, probe_bars, memory32}
use mars.Pcie.Probe.{IsConfig, described, value_in, decoding_off, mask_in, probe_bars-described}

abbrev identity : AddressTranslator
identity = record { phys_to_dmap = λ p. p; dmap_to_phys = λ v. v }

abbrev segment_zero : Ecam
segment_zero = record { phys_base = 0; segment = 0; start_bus = 0; end_bus = 255 }

abbrev first_function : Bdf
first_function = record { segment = 0; bus = 0; device = 0; function = 0 }

-- Whether the function decodes memory, and whether its window is at 2 GiB.
abbrev window : Mmio (Bool × Bool)
window = record {
  read_volatile = λ bytes p (memory, high).
      if p == 4
      then (if memory then 2 else 0)
      else if p == 16
      then (if high then 2 ^ 31 else 0)
      else 0;
  write_volatile = λ bytes p v (memory, high).
      if p == 4
      then (v / 2 % 2 == 1, high)
      else if p == 16
      then (memory, v / 2 ^ 31 % 2 == 1)
      else (memory, high);
}

command_kept :
    (v : ℕ) (s : Bool × Bool)
    → poke window identity 2 segment_zero first_function 4
        (peek window identity 2 segment_zero first_function 4 s)
        (poke window identity 2 segment_zero first_function 4 v s)
      ≡ s
unfolding peek poke offset_ptr config_address
command_kept v (true, high) = refl
command_kept v (false, high) = refl

bar_kept :
    (i v : ℕ) (s : Bool × Bool)
    → i < 6
    → poke window identity 4 segment_zero first_function
        (bar_offset i)
        (peek window identity 4 segment_zero first_function (bar_offset i) s)
        (poke window identity 4 segment_zero first_function (bar_offset i) v s)
      ≡ s
unfolding peek poke offset_ptr config_address
bar_kept zero v (memory, true) lt = refl
bar_kept zero v (memory, false) lt = refl
bar_kept (suc zero) v (memory, high) lt = refl
bar_kept (suc (suc zero)) v (memory, high) lt = refl
bar_kept (suc (suc (suc zero))) v (memory, high) lt = refl
bar_kept (suc (suc (suc (suc zero)))) v (memory, high) lt = refl
bar_kept (suc (suc (suc (suc (suc zero))))) v (memory, high) lt = refl
bar_kept (suc (suc (suc (suc (suc (suc i)))))) v s lt = absurd (omega arith)

window-IsConfig : IsConfig window identity segment_zero first_function
window-IsConfig = record { command = command_kept; bar = bar_kept }

-- Decoding on, the window at 2 GiB: it is found, and both are as they were.
probe_bars-described_example :
    probe_bars window identity segment_zero first_function (true, true)
    ≡ done (
      described 7
          (value_in window identity segment_zero first_function
            (decoding_off window identity segment_zero first_function (true, true)))
          (mask_in window identity segment_zero first_function
            (decoding_off window identity segment_zero first_function (true, true)))
          0,
      (true, true),
    )
probe_bars-described_example =
    probe_bars-described window identity segment_zero first_function window-IsConfig (true, true)

two_gigabytes :
    probe_bars window identity segment_zero first_function (true, true)
    ≡ done (memory32 (2 ^ 31) (2 ^ 31) false ∷ [], (true, true))
unfolding probe_bars read_u16 write_u16 read_u32 write_u32 offset_ptr memory32_bar
two_gigabytes = refl

two_gigabytes-Registers :
    Registers
      (narrow_window (2 ^ 31) (2 ^ 31) false)
      (value_in window identity segment_zero first_function (true, true))
      (mask_in window identity segment_zero first_function (true, true))
      0
unfolding Registers peek poke offset_ptr config_address
two_gigabytes-Registers = ((refl, omega arith, refl, omega arith, omega arith), refl, refl)

probe_bar-Registers_example :
    probe_bar window identity segment_zero first_function 0 (true, true)
    ≡ done (some (bar_of (narrow_window (2 ^ 31) (2 ^ 31) false)), 1, (true, true))
probe_bar-Registers_example =
    probe_bar-Registers window identity segment_zero first_function
      (narrow_window (2 ^ 31) (2 ^ 31) false) 0 (true, true) window-IsConfig (omega arith)
      two_gigabytes-Registers

first_function-IsBdf : IsBdf first_function
first_function-IsBdf = record {
  bus_lt = omega arith;
  device_lt = omega arith;
  function_lt = omega arith;
}

config_address-apart_example :
    (first_function.bus ≡ first_function.bus)
    × (first_function.device ≡ first_function.device)
    × (first_function.function ≡ first_function.function)
    × (◌≡◌ {A = ℕ} 4 4)
config_address-apart_example =
    config_address-apart segment_zero first_function first_function 4 4 (omega arith)
      first_function-IsBdf first_function-IsBdf refl refl (omega arith) (omega arith) refl

-- Every register is 16: there is a list, and its first capability is at offset 16, where none can be.
abbrev sixteens : Mmio ℕ
sixteens = record { read_volatile = λ bytes p s. 16; write_volatile = λ bytes p v s. s + 1 }

find_capability-ends_example :
    (items : List (StandardCapabilityId × ℕ)) × (new_standard sixteens identity segment_zero
          first_function 0
        >>= all_standard sixteens identity segment_zero first_function 0 65
      ≡ done items)
    × (find_capability sixteens identity segment_zero first_function 0 msi
        ≡ done (first_with msi items))
    × (length items ≤ 64)
    × Visits (λ k. false) items
find_capability-ends_example =
    find_capability-ends sixteens identity segment_zero first_function 0 msi

abbrev off_by_two : ExtendedCapIter
off_by_two = record { next_ptr = 258; count = 1 }

unaligned_pointer : next_extended sixteens identity segment_zero first_function 0 off_by_two ≡ panic
unaligned_pointer =
    next_extended-panics sixteens identity segment_zero first_function 0 off_by_two (omega arith)
      (omega arith) (omega arith) (omega arith)

enumerate_segment-returns_example :
    (dt' : DeviceTree ℕ Resource) × (s' : ℕ) × (enumerate_segment sixteens identity
        (λ v d c u. v ∷ [])
        segment_zero
        (new_tree, 0)
      ≡ done (dt', s'))
    × (new : List (DeviceNode ℕ Resource)) × (dt'.nodes ≡ [] ++ new)
enumerate_segment-returns_example =
    enumerate_segment-returns sixteens identity (λ v d c u. v ∷ []) segment_zero new_tree 0
      (omega arith)
