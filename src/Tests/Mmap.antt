-- ===== src/Tests/Mmap.antt =====
-- Inputs for Mmap and Vm: small memory maps.
use mars.Prelude.{ℕ, ◌+◌, ◌*◌, ◌^◌, ◌≡◌, refl, inl, inr, some, List, [], ◌∷◌, arith, leb, ◌↔◌}
use mars.Vm.{align_up, phys_addr_to_dmap, is_kernel_address}
use mars.Mmap.{
  Uefi, MemoryDescriptor, clone_and_process_mmap, relocated, kept, first_normal, final_count,
  count_from, write_all, write_from, punch, processed, is_normal_desc, can_merge,
}
use mars.Mmap.Ranges.{populate-ranges, run, InRanges, IsNormal}
use mars.Mmap.Populate.{populate}
use mars.Pages.Reserve.{Outcome}
use mars.Pages.Memory.{PageAllocator}
use mars.Mmap.Result.{IsNewMap, clone_and_process_mmap-IsNewMap}

-- The numbers of the UEFI specification.
abbrev uefi : Uefi
uefi = record {
  loader_code = 1;
  loader_data = 2;
  boot_services_code = 3;
  boot_services_data = 4;
  conventional = 7;
  contains_runtime = λ att. leb (2 ^ 63) att;
}

abbrev entry : ℕ → ℕ → ℕ → MemoryDescriptor
entry ty start count = record {
  ty = ty;
  phys_start = start;
  virt_start = 0;
  page_count = count;
  att = 8;
}

abbrev moved : ℕ → ℕ → ℕ → MemoryDescriptor
moved ty start count = record (entry ty start count) { virt_start = start + 65535 * 2 ^ 48 }

-- The loader's code, then its data and free memory, which are merged, then tables of the firmware.
abbrev roomy : List MemoryDescriptor
roomy = entry 1 0 1 ∷ entry 2 4096 2 ∷ entry 7 12288 3 ∷ entry 9 24576 1 ∷ []

abbrev roomy_after : List MemoryDescriptor
roomy_after = moved 7 8192 4 ∷ moved 9 24576 1 ∷ []

roomy_map : clone_and_process_mmap uefi 48 roomy ≡ some (4096, roomy_after)
unfolding clone_and_process_mmap relocated kept first_normal final_count count_from write_all
    write_from punch processed is_normal_desc can_merge align_up phys_addr_to_dmap is_kernel_address
roomy_map = refl

clone_and_process_mmap-IsNewMap_example : IsNewMap uefi 48 (kept uefi roomy) 4096 roomy_after
unfolding kept final_count count_from write_all write_from processed is_normal_desc can_merge
    align_up
clone_and_process_mmap-IsNewMap_example =
    clone_and_process_mmap-IsNewMap uefi 48 roomy 4096 roomy_after roomy_map (omega arith)
      (omega arith) (omega arith, (omega arith, (omega arith, tt)))
      (
        record { fits = omega arith; place = inl refl },
        (record { fits = omega arith; place = inr (inr (omega arith)) }, tt),
      )

-- The first normal region is one page, but the new map, of three descriptors of 2048 bytes, takes two:
-- the second is that of the firmware's tables, which the new map describes all the same.
no_room :
    clone_and_process_mmap uefi 2048 (entry 7 4096 1 ∷ entry 9 8192 1 ∷ entry 7 16384 1 ∷ [])
    ≡ some (4096, moved 9 8192 1 ∷ moved 7 16384 1 ∷ [])
unfolding clone_and_process_mmap relocated kept first_normal final_count count_from write_all
    write_from punch processed is_normal_desc can_merge align_up phys_addr_to_dmap is_kernel_address
no_room = refl

populate-ranges_example :
    (ranges : List (ℕ × ℕ)) × ((write : ℕ → ℕ → PageAllocator → Outcome PageAllocator)
        (a : PageAllocator)
      → populate uefi write roomy a ≡ run write ranges a)
    × ((address : ℕ) → InRanges address ranges ↔ IsNormal uefi address roomy)
populate-ranges_example =
    populate-ranges uefi roomy (omega arith, (omega arith, (omega arith, (omega arith, tt))))
