-- ===== src/Mmap.antt =====
-- kernel/src/earlyinit/mem.rs: `clone_and_process_mmap`, which merges the firmware's memory map and
-- moves it into the first region of normal memory. The uefi crate has the types of memory and their
-- attributes, and a UEFI page has 4096 bytes. The old map is not where the new one is written.
use mars.Prelude.{
  ℕ, ◌+◌, ◌-◌, ◌*◌, ◌/◌, ◌%◌, ◌^◌, Bool, false, not, ◌&&◌, ◌||◌, Option, none, some, List, [], ◌∷◌,
  ◌++◌, map, ltb, leb, ◌==◌, if◌then◌else◌,
}
use mars.Vm.{align_up, phys_addr_to_dmap}
pub mod Cover
pub mod Room
pub mod Result
pub mod Populate
pub mod Ranges

-- The constants and the flag of the uefi crate that the code names.
pub record Uefi : Type 0 where
  pub loader_code : ℕ
  pub loader_data : ℕ
  pub boot_services_code : ℕ
  pub boot_services_data : ℕ
  pub conventional : ℕ
  pub contains_runtime : ℕ → Bool

-- `uefi::boot::MemoryDescriptor`, as far as the code uses it.
pub record MemoryDescriptor : Type 0 where
  pub ty : ℕ
  pub phys_start : ℕ
  pub virt_start : ℕ
  pub page_count : ℕ
  pub att : ℕ

-- `phys_start + page_count * UEFI_PS`, which wraps.
abbrev pub end_address : MemoryDescriptor → ℕ
end_address d = (d.phys_start + d.page_count * 4096) % 2 ^ 64

unfoldable pub can_merge : MemoryDescriptor → MemoryDescriptor → Bool
can_merge a b =
    if not (end_address a == b.phys_start) then false else (a.ty == b.ty) && (a.att == b.att)

abbrev pub grown : MemoryDescriptor → MemoryDescriptor → MemoryDescriptor
grown last current = record last { page_count = (last.page_count + current.page_count) % 2 ^ 64 }

-- What a merged descriptor is written as: nothing, or with the pages of the map itself cut off.
unfoldable pub punch : ℕ → ℕ → MemoryDescriptor → List MemoryDescriptor
unfolding phys_addr_to_dmap
punch dest_pa map_pages desc =
    let total_needed = (dest_pa - desc.phys_start) / 4096 + map_pages in
    let start = (desc.phys_start + total_needed * 4096) % 2 ^ 64 in
    if leb desc.phys_start dest_pa && ltb dest_pa (end_address desc)
    then (if ltb total_needed desc.page_count
        then (record desc {
          phys_start = start;
          page_count = desc.page_count - total_needed;
          virt_start = phys_addr_to_dmap start;
        })
          ∷ []
        else [])
    else (record desc { virt_start = phys_addr_to_dmap desc.phys_start }) ∷ []

-- The UEFI pages that `count` descriptors of `desc_size` bytes need.
abbrev pub map_pages : ℕ → ℕ → ℕ
map_pages desc_size count = align_up (count * desc_size) 4096 / 4096

module _ (u : Uefi) where
  unfoldable pub is_normal_desc : MemoryDescriptor → Bool
  is_normal_desc desc =
      not (u.contains_runtime desc.att)
      && ((desc.ty == u.boot_services_code)
          || (desc.ty == u.boot_services_data)
          || (desc.ty == u.conventional)
          || (desc.ty == u.loader_data))

  abbrev pub becomes_conventional : MemoryDescriptor → Bool
  becomes_conventional desc = is_normal_desc desc && not (desc.ty == u.boot_services_data)

  -- `current`, in both loops.
  unfoldable pub processed : MemoryDescriptor → MemoryDescriptor
  unfolding is_normal_desc
  processed desc = if becomes_conventional desc then record desc { ty = u.conventional } else desc

  -- `map.entries().filter(..)`.
  unfoldable pub kept : List MemoryDescriptor → List MemoryDescriptor
  kept [] = []
  kept (desc ∷ entries) =
      let rest = kept entries in if desc.ty == u.loader_code then rest else desc ∷ rest

  -- The first loop: where the first normal region starts.
  unfoldable pub first_normal : List MemoryDescriptor → Option ℕ
  unfolding is_normal_desc
  first_normal [] = none
  first_normal (desc ∷ entries) =
      let rest = first_normal entries in
      if becomes_conventional desc then some desc.phys_start else rest

  -- The first loop: how many descriptors are left; `last` is the one that may grow.
  unfoldable pub count_from : MemoryDescriptor → List MemoryDescriptor → ℕ
  unfolding can_merge processed
  count_from last [] = 1
  count_from last (desc ∷ entries) =
      let current = processed desc in
      let merged = count_from (grown last current) entries in
      let apart = 1 + count_from current entries in if can_merge last current then merged else apart

  unfoldable pub final_count : List MemoryDescriptor → ℕ
  unfolding count_from
  final_count [] = 0
  final_count (desc ∷ entries) = count_from (processed desc) entries

  -- The second loop, which calls `write` on each descriptor that does not grow any more.
  unfoldable pub write_from :
      (MemoryDescriptor → List MemoryDescriptor)
      → MemoryDescriptor
      → List MemoryDescriptor
      → List MemoryDescriptor
  unfolding can_merge processed
  write_from write last [] = write last
  write_from write last (desc ∷ entries) =
      let current = processed desc in
      let merged = write_from write (grown last current) entries in
      let apart = write last ++ write_from write current entries in
      if can_merge last current then merged else apart

  unfoldable pub write_all :
      (MemoryDescriptor → List MemoryDescriptor) → List MemoryDescriptor → List MemoryDescriptor
  unfolding write_from
  write_all write [] = []
  write_all write (desc ∷ entries) = write_from write (processed desc) entries

  -- The address of the new map, and its descriptors, for the entries that are not left out.
  unfoldable pub relocated : ℕ → List MemoryDescriptor → Option (ℕ × List MemoryDescriptor)
  unfolding first_normal final_count write_all punch align_up
  relocated desc_size entries = elim (first_normal entries) [
    | none ↦ none
    | some dest_pa ↦
        some
          (dest_pa, write_all (punch dest_pa (map_pages desc_size (final_count entries))) entries)
  ]

  -- `clone_and_process_mmap`; `none` is the panic for a map without normal memory.
  unfoldable pub clone_and_process_mmap :
      ℕ → List MemoryDescriptor → Option (ℕ × List MemoryDescriptor)
  unfolding relocated kept
  clone_and_process_mmap desc_size map = relocated desc_size (kept map)
