-- ===== src/Pages/Buddy.antt =====
-- klib/src/pm/page/mod.rs: the operations of `PageAllocator`. Each runs as one step.
use mars.Pages.Memory.{
  PageAllocator, max_order, mark, fill, pop_block, unlink_block, push_block, page_address, order_of,
  free_byte, is_free_byte,
}
use mars.Prelude.{
  ℕ, zero, suc, ◌+◌, ◌-◌, ◌*◌, ◌/◌, ◌%◌, ◌^◌, min, false, not, ◌&&◌, ◌||◌, Option, none, some, ltb,
  leb, ◌==◌, if◌then◌else◌,
}
use mars.Prelude.Family.{update}
use mars.Pages.Reserve.{Outcome, done, panic, out_of_fuel, reserve, zone_size}

-- `PageAllocator::new`.
abbrev pub new : PageAllocator
new = record {
  zone_head = 0;
  free_area = λ order. 0;
  total_pages = 0;
  allocated_pages = 0;
  lowest_address = 0;
  is_dmap = false;
  zones = λ z. record { meta_array = 0; data_base = 0; total_pages = 0; next = 0 };
  blocks = λ b. record { next = 0; prev = 0; zone = 0; page_index = 0 };
  metadata = λ k. 0;
}

-- `current_index.trailing_zeros()` and `remaining.ilog2()`; the fuel is the width of a word.
unfoldable pub trailing_zeros : ℕ → ℕ → ℕ
trailing_zeros zero n = 0
trailing_zeros (suc width) n =
    let more = trailing_zeros width (n / 2) in if n % 2 == 0 then suc more else 0

unfoldable pub ilog2 : ℕ → ℕ → ℕ
ilog2 zero n = 0
ilog2 (suc width) n = let more = ilog2 width (n / 2) in if ltb n 2 then 0 else suc more

-- The order of the block that is carved at `index` of `usable` pages.
unfoldable pub carve_order : ℕ → ℕ → ℕ
unfolding trailing_zeros ilog2
carve_order usable index =
    let align_order = if index == 0 then max_order - 1 else trailing_zeros 64 index in
    min (min align_order (ilog2 64 (usable - index))) (max_order - 1)

-- A block of free pages is marked and listed.
unfoldable pub give_block : ℕ → ℕ → ℕ → PageAllocator → PageAllocator
unfolding mark push_block
give_block order z index a = push_block order z index (mark z index (2 ^ order) (free_byte order) a)

-- The `while` of `add_range`.
unfoldable pub carve : ℕ → ℕ → ℕ → ℕ → PageAllocator → PageAllocator
unfolding give_block carve_order
carve zero z usable index a = a
carve (suc fuel) z usable index a =
    let order = carve_order usable index in
    let rest = carve fuel z usable (index + 2 ^ order) (give_block order z index a) in
    if ltb index usable then rest else a

-- The part of `add_range` behind the loop that finds the number of reserved pages.
unfoldable pub add_zone : ℕ → ℕ → ℕ → PageAllocator → PageAllocator
unfolding carve fill
add_zone start usable reserved a =
    let data_base = start + reserved * 16384 in
    let z = start + reserved * 16384 - zone_size in
    carve usable z usable 0 (record a {
      lowest_address =
          if a.lowest_address == 0 || ltb data_base a.lowest_address
          then data_base
          else a.lowest_address;
      metadata = fill usable start 0 a.metadata;
      zones = update a.zones z (record {
        meta_array = start;
        data_base = data_base;
        total_pages = usable;
        next = a.zone_head;
      });
      zone_head = z;
      total_pages = (a.total_pages + usable) % 2 ^ 64;
    })

-- `PageAllocator::add_range`. `fuel` is for the loop that finds the number of reserved pages; a debug
-- assertion on the kind of address is left out.
unfoldable pub add_range : ℕ → ℕ → ℕ → PageAllocator → Outcome PageAllocator
unfolding reserve add_zone
add_range fuel start end a =
    if not (ltb start end)
    then panic
    else if not (start % 16384 == 0) || not (end % 16384 == 0)
    then panic
    else (let total = (end - start) / 16384 in
        if total == 0 then done a else elim (reserve fuel total) [
          | done reserved ↦ done (add_zone start (total - reserved) reserved a)
          | panic ↦ panic
          | out_of_fuel ↦ out_of_fuel
        ])

-- The first order from `order` on, of `left` orders, whose list is not empty.
unfoldable pub first_free : ℕ → ℕ → (ℕ → ℕ) → Option ℕ
first_free zero order area = none
first_free (suc left) order area =
    let more = first_free left (order + 1) area in
    if not (area order == 0) then some order else more

-- The `while` that splits: `left` halves are given back, the largest first.
unfoldable pub split : ℕ → ℕ → ℕ → ℕ → PageAllocator → PageAllocator
unfolding give_block
split zero target z index a = a
split (suc left) target z index a =
    split left target z index (give_block (target + left) z (index + 2 ^ (target + left)) a)

-- The body of the loop of `alloc_pages`, for the head of the list of order `current`.
unfoldable pub take_pages : ℕ → ℕ → PageAllocator → ℕ × PageAllocator
unfolding pop_block mark split
take_pages target current a =
    let head = a.blocks (a.free_area current) in
    let popped = mark head.zone head.page_index (2 ^ target) target (pop_block current a) in
    let whole = split (current - target) target head.zone head.page_index popped in
    (
      page_address a.zones head.zone head.page_index,
      record whole { allocated_pages = (whole.allocated_pages + 2 ^ target) % 2 ^ 64 },
    )

-- `PageAllocator::alloc_pages`; the null pointer is 0.
unfoldable pub alloc_pages : ℕ → PageAllocator → ℕ × PageAllocator
unfolding first_free take_pages
alloc_pages target a =
    if leb max_order target
    then (0, a)
    else elim (first_free (max_order - target) target a.free_area) [
      | none ↦ (0, a)
      | some current ↦ take_pages target current a
    ]

-- `page_index ^ (1 << order)`: one bit changes.
abbrev pub buddy : ℕ → ℕ → ℕ
buddy order index = if index / 2 ^ order % 2 == 0 then index + 2 ^ order else index - 2 ^ order

-- `page_index & !(1 << order)`.
abbrev pub merged : ℕ → ℕ → ℕ
merged order index = if index / 2 ^ order % 2 == 0 then index else index - 2 ^ order

-- `free_block_in_zone`: `left` merges are possible, so that the order is `max_order - 1 - left`.
unfoldable pub free_block_in_zone : ℕ → ℕ → ℕ → ℕ → PageAllocator → PageAllocator
unfolding give_block unlink_block
free_block_in_zone zero z index order a = give_block order z index a
free_block_in_zone (suc left) z index order a =
    let zone = a.zones z in
    let other = buddy order index in
    let value = a.metadata (zone.meta_array + other) in
    let more =
      free_block_in_zone left z (merged order index) (order + 1)
        (unlink_block order (page_address a.zones z other) a) in
    let here = give_block order z index a in
    if leb zone.total_pages other || ltb zone.total_pages (other + 2 ^ order)
    then here
    else if not (is_free_byte value) || not (order_of value == order)
    then here
    else more

-- `free_pages` in the zone that owns the address; `none` is an assertion or an index that fails.
unfoldable pub free_in_zone : ℕ → ℕ → PageAllocator → Option PageAllocator
unfolding free_block_in_zone
free_in_zone z address a =
    let zone = a.zones z in
    let off = address - zone.data_base in
    let index = off / 16384 in
    let value = a.metadata (zone.meta_array + index) in
    let order = order_of value in
    if not (off % 16384 == 0)
    then none
    else if is_free_byte value || leb max_order order
    then none
    else some (
        free_block_in_zone (max_order - 1 - order) z index order
          (record a { allocated_pages = (a.allocated_pages + 2 ^ 64 - 2 ^ order) % 2 ^ 64 }))

-- `free_pages` from the zone `z` on; the fuel bounds the number of zones.
unfoldable pub free_from : ℕ → ℕ → ℕ → PageAllocator → Outcome PageAllocator
unfolding free_in_zone
free_from zero z address a = out_of_fuel
free_from (suc fuel) z address a =
    let zone = a.zones z in
    let rest = free_from fuel zone.next address a in
    if z == 0
    then panic
    else if leb zone.data_base address && ltb address (zone.data_base + zone.total_pages * 16384)
    then elim (free_in_zone z address a) [ none ↦ panic | some a' ↦ done a' ]
    else rest

-- `PageAllocator::free_pages`.
unfoldable pub free_pages : ℕ → ℕ → PageAllocator → Outcome PageAllocator
unfolding free_from
free_pages fuel address a = if address == 0 then done a else free_from fuel a.zone_head address a
