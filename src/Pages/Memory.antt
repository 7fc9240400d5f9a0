-- ===== src/Pages/Memory.antt =====
-- klib/src/pm/page/mod.rs: the state of `PageAllocator` and the memory that its pointers lead to. The
-- bytes of metadata, the headers of free blocks and the zones are three memories, since they never
-- overlap; a pointer is an address, and 0 is null. The lock and the translator are left out.
use mars.Prelude.{ℕ, zero, suc, ◌+◌, ◌*◌, ◌/◌, ◌%◌, Bool, ◌==◌, if◌then◌else◌}
use mars.Prelude.Family.{update}

pub record FreeBlock : Type 0 where
  pub next : ℕ
  pub prev : ℕ
  pub zone : ℕ
  pub page_index : ℕ

pub record Zone : Type 0 where
  pub meta_array : ℕ
  pub data_base : ℕ
  pub total_pages : ℕ
  pub next : ℕ

pub record PageAllocator : Type 0 where
  pub zone_head : ℕ
  pub free_area : ℕ → ℕ
  pub total_pages : ℕ
  pub allocated_pages : ℕ
  pub lowest_address : ℕ
  pub is_dmap : Bool
  pub zones : ℕ → Zone
  pub blocks : ℕ → FreeBlock
  pub metadata : ℕ → ℕ

-- `MAX_ORDER`.
abbrev pub max_order : ℕ
max_order = 11

-- `order as u8 | FREE_FLAG`, for an order below 128.
abbrev pub free_byte : ℕ → ℕ
free_byte order = order + 128

-- `meta_val & FREE_FLAG != 0`, and `meta_val & !FREE_FLAG`.
abbrev pub is_free_byte : ℕ → Bool
is_free_byte value = value / 128 % 2 == 1

abbrev pub order_of : ℕ → ℕ
order_of value = value % 128

-- `for p in 0..count { *base.add(p) = value }`.
unfoldable pub fill : ℕ → ℕ → ℕ → (ℕ → ℕ) → ℕ → ℕ
fill zero base value m = m
fill (suc count) base value m = update (fill count base value m) (base + count) value

-- `*zone.meta_array.add(index..index + count) = value`.
unfoldable pub mark : ℕ → ℕ → ℕ → ℕ → PageAllocator → PageAllocator
mark z index count value a = record a {
  metadata = fill count ((a.zones z).meta_array + index) value a.metadata;
}

-- The address of a page.
abbrev pub page_address : (ℕ → Zone) → ℕ → ℕ → ℕ
page_address zones z index = (zones z).data_base + index * 16384

-- A block is written and becomes the head of the list of its order.
unfoldable pub push_block : ℕ → ℕ → ℕ → PageAllocator → PageAllocator
push_block order z index a =
    let block = page_address a.zones z index in
    let old_head = a.free_area order in
    let written =
      update a.blocks block (record { next = old_head; prev = 0; zone = z; page_index = index }) in
    record a {
      blocks =
          if old_head == 0
          then written
          else update written old_head (record (written old_head) { prev = block });
      free_area = update a.free_area order block;
    }

-- The head of a list is taken off it.
unfoldable pub pop_block : ℕ → PageAllocator → PageAllocator
pop_block order a =
    let next = (a.blocks (a.free_area order)).next in
    record a {
      blocks =
          if next == 0
          then a.blocks
          else update a.blocks next (record (a.blocks next) { prev = 0 });
      free_area = update a.free_area order next;
    }

-- A block is taken out of its list.
unfoldable pub unlink_block : ℕ → ℕ → PageAllocator → PageAllocator
unlink_block order block a =
    let next = (a.blocks block).next in
    let prev = (a.blocks block).prev in
    let before =
      if prev == 0
      then a.blocks
      else update a.blocks prev (record (a.blocks prev) { next = next }) in
    record a {
      blocks =
          if next == 0 then before else update before next (record (before next) { prev = prev });
      free_area = if prev == 0 then update a.free_area order next else a.free_area;
    }
