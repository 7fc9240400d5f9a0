-- ===== src/Pages/Requests.antt =====
-- klib/src/pm/page/mod.rs: the other operations of `PageAllocator`, and the two traits that it
-- implements, PhysicalPageAllocator and DmapPageAllocator of klib/src/vm/page_allocator.rs.
use mars.Prelude.{ℕ, zero, suc, ◌+◌, ◌*◌, not, ◌&&◌, Option, none, some, ltb, ◌==◌, if◌then◌else◌}
use mars.Pages.Reserve.{Outcome, done, out_of_fuel}
use mars.Pages.Memory.{PageAllocator}
use mars.Pages.Buddy.{alloc_pages, free_pages}

-- klib/src/pm/page/mapper.rs, the trait `AddressTranslator`.
pub record AddressTranslator : Type 0 where
  pub phys_to_dmap : ℕ → ℕ
  pub dmap_to_phys : ℕ → ℕ

-- klib/src/vm/mod.rs.
pub data VmError : Type 0 where
  overlap : VmError
  invalid_address : VmError
  invalid_size : VmError
  out_of_memory : VmError
  invalid_alignment : VmError
  not_mapped : VmError

pub data VmResult {ℓ} (A : Type ℓ) : Type ℓ where
  ok : A → VmResult A
  err : VmError → VmResult A

-- `PageAllocator::wipe`.
unfoldable pub wipe : PageAllocator → PageAllocator
wipe a = record a {
  zone_head = 0;
  lowest_address = 0;
  free_area = λ order. 0;
  total_pages = 0;
  allocated_pages = 0;
}

-- The loop of `max_address`, and the function; the fuel bounds the number of zones.
unfoldable pub max_from : ℕ → ℕ → ℕ → PageAllocator → Outcome ℕ
max_from zero head most a = out_of_fuel
max_from (suc fuel) head most a =
    let zone = a.zones head in
    let end = zone.data_base + zone.total_pages * 16384 in
    let rest = max_from fuel zone.next (if ltb most end then end else most) a in
    if head == 0 then done most else rest

unfoldable pub max_address : ℕ → PageAllocator → Outcome ℕ
unfolding max_from
max_address fuel a = max_from fuel a.zone_head 0 a

-- The loop of `overlapping_range`, and the function.
unfoldable pub overlap_from :
    AddressTranslator → ℕ → ℕ → ℕ → ℕ → PageAllocator → Outcome (Option (ℕ × ℕ))
overlap_from t zero z start end a = out_of_fuel
overlap_from t (suc fuel) z start end a =
    let zone = a.zones z in
    let zone_start = t.dmap_to_phys zone.meta_array in
    let zone_end = t.dmap_to_phys (zone.data_base + zone.total_pages * 16384) in
    let rest = overlap_from t fuel zone.next start end a in
    if t.dmap_to_phys z == 0
    then done none
    else if ltb start zone_end && ltb zone_start end
    then done (some (zone_start, zone_end))
    else rest

unfoldable pub overlapping_range :
    AddressTranslator → ℕ → ℕ → ℕ → PageAllocator → Outcome (Option (ℕ × ℕ))
unfolding overlap_from
overlapping_range t fuel start end a =
    if not (ltb start end) then done none else overlap_from t fuel a.zone_head start end a

unfoldable pub alloc_phys_page : AddressTranslator → PageAllocator → VmResult ℕ × PageAllocator
unfolding alloc_pages
alloc_phys_page t a =
    let (page, a') = alloc_pages 0 a in (ok (if a.is_dmap then t.dmap_to_phys page else page), a')

unfoldable pub free_phys_page : AddressTranslator → ℕ → ℕ → PageAllocator → Outcome PageAllocator
unfolding free_pages
free_phys_page t fuel pa a = free_pages fuel (if a.is_dmap then t.phys_to_dmap pa else pa) a

unfoldable pub alloc_dmap_page : AddressTranslator → PageAllocator → VmResult ℕ × PageAllocator
unfolding alloc_pages
alloc_dmap_page t a =
    let (page, a') = alloc_pages 0 a in (ok (if a.is_dmap then page else t.phys_to_dmap page), a')

unfoldable pub free_dmap_page : AddressTranslator → ℕ → ℕ → PageAllocator → Outcome PageAllocator
unfolding free_pages
free_dmap_page t fuel va a = free_pages fuel (if a.is_dmap then va else t.dmap_to_phys va) a
