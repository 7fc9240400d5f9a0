-- ===== src/Vm/Regions.antt =====
-- klib/src/vm/mod.rs: regions of memory and their types.
use mars.Prelude.{
  ℕ, ◌+◌, ◌-◌, ◌%◌, ◌^◌, ◌≤◌, ◌<◌, min, max, ◌≡◌, refl, ◌↔◌, ◌⊎◌, inl, inr, Bool, true, not, ◌&&◌,
  ◌||◌, List, [], ◌∷◌, arith, dec_lt, ltb, ◌==◌, if◌then◌else◌,
}

pub data MemoryRegionType : Type 0 where
  corrupt : MemoryRegionType
  kernel_code : MemoryRegionType
  kernel_rw_data : MemoryRegionType
  kernel_ro_data : MemoryRegionType
  kernel_stack : MemoryRegionType
  mmio : MemoryRegionType
  bootloader_reclaim : MemoryRegionType
  firmware_reclaim : MemoryRegionType
  acpi_tables : MemoryRegionType
  acpi_nvs : MemoryRegionType
  page_table : MemoryRegionType
  rt_firmware_code : MemoryRegionType
  rt_firmware_data : MemoryRegionType
  normal : MemoryRegionType
  unknown : MemoryRegionType

unfoldable pub as_bits : MemoryRegionType → ℕ
as_bits corrupt = 0
as_bits kernel_code = 1
as_bits kernel_rw_data = 2
as_bits kernel_ro_data = 3
as_bits kernel_stack = 4
as_bits mmio = 5
as_bits bootloader_reclaim = 6
as_bits firmware_reclaim = 7
as_bits acpi_tables = 8
as_bits acpi_nvs = 9
as_bits page_table = 10
as_bits rt_firmware_code = 11
as_bits rt_firmware_data = 12
as_bits normal = 13
as_bits unknown = 255

-- The first arm of `from_bits` that matches.
abbrev matching : ℕ → List MemoryRegionType → MemoryRegionType
matching bits [] = corrupt
matching bits (t ∷ types) = if bits == as_bits t then t else matching bits types

unfoldable pub from_bits : ℕ → MemoryRegionType
unfolding as_bits
from_bits bits = matching bits (
    kernel_code ∷ kernel_rw_data ∷ kernel_ro_data ∷ kernel_stack ∷ mmio ∷ bootloader_reclaim
    ∷ firmware_reclaim ∷ acpi_tables ∷ acpi_nvs ∷ page_table ∷ rt_firmware_code ∷ rt_firmware_data
    ∷ normal ∷ unknown ∷ [])

pub record MemoryRegion : Type 0 where
  pub base : ℕ
  pub size : ℕ
  pub region_type : MemoryRegionType

abbrev pub end_of_region : MemoryRegion → ℕ
end_of_region r = (r.base + r.size) % 2 ^ 64

unfoldable pub can_merge_regions : MemoryRegion → MemoryRegion → Bool
unfolding as_bits
can_merge_regions a b =
    (as_bits a.region_type == as_bits b.region_type)
    && not (ltb (end_of_region a) b.base || ltb (end_of_region b) a.base)

unfoldable pub merge_regions : MemoryRegion → MemoryRegion → MemoryRegion
merge_regions a b =
    let start = min a.base b.base in
    let end = max (end_of_region a) (end_of_region b) in
    record a { base = start; size = end - start }

-- Each type is read back from its bits.
pub from_bits-as_bits : (t : MemoryRegionType) → from_bits (as_bits t) ≡ t
unfolding from_bits as_bits
from_bits-as_bits corrupt = refl
from_bits-as_bits kernel_code = refl
from_bits-as_bits kernel_rw_data = refl
from_bits-as_bits kernel_ro_data = refl
from_bits-as_bits kernel_stack = refl
from_bits-as_bits mmio = refl
from_bits-as_bits bootloader_reclaim = refl
from_bits-as_bits firmware_reclaim = refl
from_bits-as_bits acpi_tables = refl
from_bits-as_bits acpi_nvs = refl
from_bits-as_bits page_table = refl
from_bits-as_bits rt_firmware_code = refl
from_bits-as_bits rt_firmware_data = refl
from_bits-as_bits normal = refl
from_bits-as_bits unknown = refl

abbrev InRegion : ℕ → MemoryRegion → Type 0
InRegion address r = (r.base ≤ address) × (address < r.base + r.size)

-- Merging two regions that may be merged, and end below 2 ^ 64, gives the addresses of both.
pub merge_regions-InRegion :
    (a b : MemoryRegion) (address : ℕ)
    → a.base + a.size < 2 ^ 64
    → b.base + b.size < 2 ^ 64
    → can_merge_regions a b ≡ true
    → InRegion address (merge_regions a b) ↔ InRegion address a ⊎ InRegion address b
unfolding can_merge_regions merge_regions
merge_regions-InRegion a b address f g e =
    let touch : b.base ≤ a.base + a.size = ground (arith, e, f) in
    let touch' : a.base ≤ b.base + b.size = ground (arith, e, g) in
    let end : (a.base + a.size) % 2 ^ 64 ≡ a.base + a.size = omega (arith, f) in
    let end' : (b.base + b.size) % 2 ^ 64 ≡ b.base + b.size = omega (arith, g) in
    (
      λ (ge, lt). elim (dec_lt address a.base) [
        | yes low ↦ inr (omega (arith, ge, low), omega (arith, low, touch'))
        | no high ↦ elim (dec_lt address (a.base + a.size)) [
          | yes inside ↦ inl (omega arith, inside)
          | no above ↦ inr (omega (arith, touch), omega (arith, ge, lt, end, end'))
        ]
      ],
      λ h. elim h [
        | inl (ge, lt) ↦ (omega arith, omega (arith, lt, end, end'))
        | inr (ge, lt) ↦ (omega arith, omega (arith, lt, end, end'))
      ],
    )
