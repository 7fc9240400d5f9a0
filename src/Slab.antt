-- ===== src/Slab.antt =====
-- klib/src/vm/slab.rs: the slab allocator, on the page allocator of Pages. The headers at the start of
-- its pages, and the words at the start of free objects, are memories by address; 0 is null. The lock is
-- left out, so each call runs as one step.
use mars.Prelude.{
  ℕ, zero, suc, ◌+◌, ◌-◌, ◌/◌, ◌%◌, ◌^◌, max, Bool, not, Option, none, some, ltb, leb, ◌==◌,
  if◌then◌else◌,
}
use mars.Prelude.Family.{update}
use mars.Vm.{align_up, align_down}
use mars.Pages.Reserve.{Outcome, done, panic, out_of_fuel}
use mars.Pages.Memory.{PageAllocator}
use mars.Pages.Buddy.{alloc_pages, free_pages}
use mars.Pages.Requests.{AddressTranslator, VmResult, ok, err, alloc_dmap_page, alloc_phys_page}
pub mod Layout
pub mod Cycle

pub record Header : Type 0 where
  pub next : ℕ
  pub prev : ℕ
  pub free_list : ℕ
  pub free_count : ℕ
  pub size_class_i : ℕ

pub record SlabAllocator : Type 0 where
  pub page_alloc : PageAllocator
  pub used_bytes : ℕ
  pub plist : ℕ → ℕ
  pub is_dmap : Bool
  pub headers : ℕ → Header
  pub words : ℕ → ℕ

-- `CLASS_SIZES[i]`, for an `i` below 9.
abbrev pub class_size : ℕ → ℕ
class_size i = 2 ^ (i + 3)

-- `size_class_index`, over the `left` classes from `i` on.
unfoldable pub class_from : ℕ → ℕ → ℕ → Option ℕ
class_from zero i size = none
class_from (suc left) i size =
    let larger = class_from left (i + 1) size in if leb size (class_size i) then some i else larger

unfoldable pub size_class_index : ℕ → Option ℕ
unfolding class_from
size_class_index size = class_from 9 0 size

-- Where the objects of a page start, and how many there are; `size_of::<Header>()` is 32.
unfoldable pub start_off : ℕ → ℕ
unfolding align_up
start_off i = align_up 32 (class_size i)

unfoldable pub cap : ℕ → ℕ
unfolding start_off
cap i = (16384 - start_off i) / class_size i

-- The objects of a new page are linked, the first of them at `obj`.
unfoldable pub link_objects : ℕ → ℕ → ℕ → (ℕ → ℕ) → ℕ → ℕ
link_objects zero obj size words = update words obj 0
link_objects (suc more) obj size words =
    link_objects more (obj + size) size (update words obj (obj + size))

-- The branch for a class with a page that has a free object.
unfoldable pub take_object : ℕ → SlabAllocator → ℕ × SlabAllocator
take_object i s =
    let page = s.plist i in
    let header = s.headers page in
    let obj = header.free_list in
    let count = (header.free_count + 2 ^ 16 - 1) % 2 ^ 16 in
    let next = header.next in
    let taken =
      update s.headers page (record header { free_list = s.words obj; free_count = count }) in
    let cut = if next == 0 then taken else update taken next (record (taken next) { prev = 0 }) in
    (
      obj,
      if count == 0
          then record s {
            headers = update cut page (record (cut page) { next = 0; prev = 0 });
            plist = update s.plist i next;
          }
          else record s { headers = taken },
    )

-- The branch for a class without one, once there is a page.
unfoldable pub fill_page : ℕ → ℕ → SlabAllocator → ℕ × SlabAllocator
unfolding start_off cap link_objects
fill_page i page s =
    let first_obj = page + start_off i in
    let objects = cap i in
    let words = link_objects (objects - 1) first_obj (class_size i) s.words in
    let head = s.plist i in
    let new : Header = record {
      next = if ltb 1 objects then head else 0;
      prev = 0;
      free_list = words first_obj;
      free_count = (objects % 2 ^ 16 + 2 ^ 16 - 1) % 2 ^ 16;
      size_class_i = i;
    } in
    let written = update s.headers page new in
    (
      first_obj,
      if ltb 1 objects
          then record s {
            headers =
                if head == 0
                then written
                else update written head (record (written head) { prev = page });
            plist = update s.plist i page;
            words = words;
          }
          else record s { headers = written; words = words },
    )

unfoldable pub small_alloc : AddressTranslator → ℕ → SlabAllocator → Outcome (ℕ × SlabAllocator)
unfolding take_object fill_page alloc_dmap_page alloc_phys_page
small_alloc t i s =
    if not (s.plist i == 0)
    then done (take_object i s)
    else (let (page, a) =
          if s.is_dmap then alloc_dmap_page t s.page_alloc else alloc_phys_page t s.page_alloc in
        elim page [
          | err e ↦ panic
          | ok p ↦ if p == 0 then panic else done (fill_page i p (record s { page_alloc = a }))
        ])

-- `n.next_power_of_two().trailing_zeros()`, from `order` on; a word has 64 bits.
unfoldable pub order_from : ℕ → ℕ → ℕ → ℕ
order_from zero order n = order
order_from (suc left) order n =
    let more = order_from left (order + 1) n in if leb n (2 ^ order) then order else more

-- The branch without a class: whole pages, and if the alignment is larger than a page, a word in front
-- of the result that says where they start.
unfoldable pub large_alloc : ℕ → ℕ → SlabAllocator → ℕ × SlabAllocator
unfolding order_from align_up alloc_pages
large_alloc size align s =
    if not (ltb 16384 align)
    then (let (pages, a) =
          alloc_pages (order_from 64 0 ((size + 16384 - 1) / 16384)) s.page_alloc in
        (pages, record s { page_alloc = a }))
    else (let total_bytes = size + align + 8 in
        let (pages, a) =
          alloc_pages (order_from 64 0 ((total_bytes + 16384 - 1) / 16384)) s.page_alloc in
        let aligned = align_up (pages + 8) align in
        if pages == 0
        then (0, record s { page_alloc = a })
        else (aligned, record s { page_alloc = a; words = update s.words (aligned - 8) pages }))

-- `used_bytes.fetch_add(layout.size())`.
abbrev pub counted : ℕ → ℕ × SlabAllocator → ℕ × SlabAllocator
counted layout_size (ptr, s) = (
  ptr,
  if not (ptr == 0) then record s { used_bytes = (s.used_bytes + layout_size) % 2 ^ 64 } else s,
)

-- `alloc_impl`, for a layout of `size` bytes with alignment `align`.
unfoldable pub alloc_impl : AddressTranslator → ℕ → ℕ → SlabAllocator → Outcome (ℕ × SlabAllocator)
unfolding size_class_index small_alloc large_alloc
alloc_impl t size align s = elim (size_class_index (max size align)) [
  | none ↦ done (counted size (large_alloc (max size align) align s))
  | some i ↦ elim (small_alloc t i s) [
    | done r ↦ done (counted size r)
    | panic ↦ panic
    | out_of_fuel ↦ out_of_fuel
  ]
]

-- The header of a page comes off its list, and goes to the front of it.
abbrev unlisted : ℕ → ℕ → SlabAllocator → SlabAllocator
unlisted i page s =
    let next = (s.headers page).next in
    let prev = (s.headers page).prev in
    let before =
      if prev == 0
      then s.headers
      else update s.headers prev (record (s.headers prev) { next = next }) in
    record s {
      plist = if prev == 0 then update s.plist i next else s.plist;
      headers =
          if next == 0 then before else update before next (record (before next) { prev = prev });
    }

abbrev listed : ℕ → ℕ → SlabAllocator → SlabAllocator
listed i page s =
    let head = s.plist i in
    let first = update s.headers page (record (s.headers page) { next = head }) in
    record s {
      headers =
          if head == 0 then first else update first head (record (first head) { prev = page });
      plist = update s.plist i page;
    }

-- The object is put on the list of its page.
abbrev given : ℕ → ℕ → SlabAllocator → SlabAllocator
given ptr page s =
    let header = s.headers page in
    record s {
      words = update s.words ptr header.free_list;
      headers =
          update s.headers page
            (record header { free_list = ptr; free_count = (header.free_count + 1) % 2 ^ 16 });
    }

-- The branch of `free_impl` for an object of a class; the fuel is for `free_pages`. A class index out
-- of range panics.
unfoldable pub small_free : ℕ → ℕ → SlabAllocator → Outcome SlabAllocator
small_free fuel ptr s =
    let page = align_down ptr 16384 in
    let i = (s.headers page).size_class_i in
    let was_full = (s.headers page).free_count == 0 in
    let count = ((s.headers page).free_count + 1) % 2 ^ 16 in
    let s' = given ptr page s in
    if leb 9 i
    then panic
    else if count == cap i % 2 ^ 16
    then (let s'' = if not was_full then unlisted i page s' else s' in
        elim (free_pages fuel page s.page_alloc) [
          | done a ↦ done (record s'' { page_alloc = a })
          | panic ↦ panic
          | out_of_fuel ↦ out_of_fuel
        ])
    else done (if was_full then listed i page s' else s')

unfoldable pub large_free : ℕ → ℕ → ℕ → SlabAllocator → Outcome SlabAllocator
unfolding free_pages
large_free fuel ptr align s =
    elim (free_pages fuel (if leb align 16384 then ptr else s.words (ptr - 8)) s.page_alloc) [
      | done a ↦ done (record s { page_alloc = a })
      | panic ↦ panic
      | out_of_fuel ↦ out_of_fuel
    ]

-- `free_impl`, for a layout of `size` bytes with alignment `align`.
unfoldable pub free_impl : ℕ → ℕ → ℕ → ℕ → SlabAllocator → Outcome SlabAllocator
unfolding size_class_index small_free large_free
free_impl fuel ptr size align s =
    let freed : Outcome SlabAllocator = elim (size_class_index (max size align)) [
      | none ↦ large_free fuel ptr align s
      | some i ↦ small_free fuel ptr s
    ] in
    if ptr == 0 then done s else elim freed [
      | done s' ↦ done (record s' { used_bytes = (s'.used_bytes + 2 ^ 64 - size) % 2 ^ 64 })
      | panic ↦ panic
      | out_of_fuel ↦ out_of_fuel
    ]
