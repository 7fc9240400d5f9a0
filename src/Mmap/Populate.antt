-- ===== src/Mmap/Populate.antt =====
-- kernel/src/earlyinit/mem.rs: the page allocator is given the memory of the map.
use mars.Prelude.{
  ℕ, ◌-◌, ◌*◌, ◌%◌, ◌^◌, not, ◌&&◌, none, some, List, [], ◌∷◌, map, ltb, leb, ◌==◌, if◌then◌else◌,
}
use mars.Vm.{align_up, align_down, phys_addr_to_dmap}
use mars.Pages.Reserve.{Outcome, done, panic, out_of_fuel}
use mars.Pages.Memory.{PageAllocator}
use mars.Pages.Buddy.{add_range}
use mars.Pages.Requests.{AddressTranslator, overlapping_range}
use mars.Mmap.{Uefi, MemoryDescriptor, is_normal_desc, end_address}

-- One call and then another.
abbrev pub and_then :
    Outcome PageAllocator → (PageAllocator → Outcome PageAllocator) → Outcome PageAllocator
and_then (done a) next = next a
and_then panic next = panic
and_then out_of_fuel next = out_of_fuel

-- `add_subrange`; the fuel is for `add_range`.
unfoldable pub add_subrange : ℕ → ℕ → ℕ → PageAllocator → Outcome PageAllocator
unfolding align_up align_down phys_addr_to_dmap add_range
add_subrange fuel start end a =
    let first = phys_addr_to_dmap (align_up start 16384) in
    let last = phys_addr_to_dmap (align_down end 16384) in
    if ltb first last && leb (4 * 16384) (last - first) then add_range fuel first last a else done a

-- `flush`; the fuel is for `add_range` and for the list of zones. The translator is the allocator's.
unfoldable pub flush : AddressTranslator → ℕ → ℕ → ℕ → PageAllocator → Outcome PageAllocator
unfolding add_subrange overlapping_range
flush t fuel start end a = elim (overlapping_range t fuel start end a) [
  | panic ↦ panic
  | out_of_fuel ↦ out_of_fuel
  | done none ↦ add_subrange fuel start end a
  | done (some (from, to)) ↦
      and_then (if ltb start from then add_subrange fuel start from a else done a)
        λ b. if ltb to end then add_subrange fuel to end b else done b
]

-- The loop of `populate_alloc_stage1` over the normal entries, `flush` being `write`. It has seen a
-- range, which may grow.
unfoldable pub populate_from :
    Uefi
    → (ℕ → ℕ → PageAllocator → Outcome PageAllocator)
    → ℕ
    → ℕ
    → List MemoryDescriptor
    → PageAllocator
    → Outcome PageAllocator
unfolding is_normal_desc
populate_from u write start end [] a = write start end a
populate_from u write start end (d ∷ entries) a =
    let others = populate_from u write start end entries a in
    let longer = populate_from u write start (end_address d) entries a in
    let apart =
      and_then (write start end a) (populate_from u write d.phys_start (end_address d) entries) in
    if not (is_normal_desc u d) then others else if end == d.phys_start then longer else apart

-- The loop before it has seen a range.
unfoldable pub populate :
    Uefi
    → (ℕ → ℕ → PageAllocator → Outcome PageAllocator)
    → List MemoryDescriptor
    → PageAllocator
    → Outcome PageAllocator
unfolding populate_from
populate u write [] a = done a
populate u write (d ∷ entries) a =
    let others = populate u write entries a in
    let seen = populate_from u write d.phys_start (end_address d) entries a in
    if not (is_normal_desc u d) then others else seen

unfoldable pub populate_alloc_stage1 :
    Uefi → AddressTranslator → ℕ → List MemoryDescriptor → PageAllocator → Outcome PageAllocator
unfolding populate flush
populate_alloc_stage1 u t fuel map a = populate u (flush t fuel) map a

-- `max_by_key` of the page counts: the last of the largest.
unfoldable pub largest : MemoryDescriptor → List MemoryDescriptor → MemoryDescriptor
largest best [] = best
largest best (d ∷ entries) =
    let newer = largest d entries in
    let older = largest best entries in if leb best.page_count d.page_count then newer else older

-- The entries that `populate_alloc_stage0` looks at.
unfoldable pub stage0_entries : Uefi → List MemoryDescriptor → List MemoryDescriptor
stage0_entries u [] = []
stage0_entries u (d ∷ entries) =
    let rest = stage0_entries u entries in
    if (d.ty == u.conventional) && leb (4 * 16384) (d.page_count * 4096 % 2 ^ 64)
    then d ∷ rest
    else rest

unfoldable pub populate_alloc_stage0 :
    Uefi → ℕ → List MemoryDescriptor → PageAllocator → Outcome PageAllocator
unfolding largest stage0_entries align_up align_down add_range
populate_alloc_stage0 u fuel map a = elim (stage0_entries u map) [
  | [] ↦ done a
  | d ∷ entries ↦
      let best = largest d entries in
      add_range fuel (align_up best.phys_start 16384) (align_down (end_address best) 16384) a
]
