-- ===== src/Vm.antt =====
-- klib/src/vm/mod.rs: rounding, and the addresses of the direct map. Addresses are below 2 ^ 64.
pub mod Regions
use mars.Prelude.{
  ℕ, ◌+◌, ◌-◌, ◌*◌, ◌/◌, ◌%◌, ◌^◌, ◌<◌, ◌≡◌, refl, Bool, true, false, arith, ◌==◌, if◌then◌else◌,
}

-- `align` is a power of two, so that the mask is a division; the sum wraps.
unfoldable pub align_down : ℕ → ℕ → ℕ
align_down address align = address / align * align

unfoldable pub align_up : ℕ → ℕ → ℕ
align_up address align = (address + align - 1) % 2 ^ 64 / align * align

-- `((addr >> 48) & 0x1) == 0x1`.
unfoldable pub is_kernel_address : ℕ → Bool
is_kernel_address address = address / 2 ^ 48 % 2 == 1

-- `phys_addr | DMAP_START`: the 16 highest bits are set.
unfoldable pub phys_addr_to_dmap : ℕ → ℕ
unfolding is_kernel_address
phys_addr_to_dmap address =
    if is_kernel_address address then address else address % 2 ^ 48 + 65535 * 2 ^ 48

unfoldable pub dmap_addr_to_phys : ℕ → ℕ
dmap_addr_to_phys address = address % 2 ^ 48

-- The direct map is a bijection from physical addresses of 48 bits to its own addresses, which are
-- kernel addresses, and mapping an address again changes nothing.
pub dmap_addr_to_phys-phys_addr_to_dmap :
    (address : ℕ)
    → address < 2 ^ 48
    → (dmap_addr_to_phys (phys_addr_to_dmap address) ≡ address)
      × (is_kernel_address (phys_addr_to_dmap address) ≡ true)
      × (phys_addr_to_dmap (phys_addr_to_dmap address) ≡ phys_addr_to_dmap address)
unfolding dmap_addr_to_phys phys_addr_to_dmap is_kernel_address
dmap_addr_to_phys-phys_addr_to_dmap address lt =
    let low : address / 2 ^ 48 ≡ 0 = omega arith in
    let test : (address / 2 ^ 48 % 2 == 1) ≡ false = ground arith in
    let high : ((address % 2 ^ 48 + 65535 * 2 ^ 48) / 2 ^ 48 % 2 == 1) ≡ true = ground arith in
    (rw test (omega arith), rw (test, high) refl, rw (test, high) refl)
