-- ===== src/Paging/Tables.antt =====
-- klib/src/pm/page/mapper.rs: mapping and unmapping of pages.
use mars.Prelude.{
  ℕ, zero, suc, ◌+◌, ◌*◌, ◌/◌, ◌%◌, ◌^◌, Bool, true, false, not, ◌&&◌, ◌||◌, Option, none, some,
  ltb, ◌==◌, if◌then◌else◌,
}
use mars.Prelude.Family.{update}
use mars.Pages.Requests.{AddressTranslator}

-- `TTENATIVE` of the crate aarch64_cpu_ext; `invalid` is also what a word of zeros is.
pub record Tte (E : Type 0) : Type 0 where
  pub invalid : E
  pub is_valid : E → Bool
  pub is_table : E → Bool
  pub address : E → ℕ
  pub set_is_valid : Bool → E → E
  pub set_is_table : E → E
  pub set_is_block : E → E
  pub set_address : ℕ → E → E
  pub set_access : E → E
  pub set_access_permission : ℕ → E → E
  pub set_shareability : ℕ → E → E
  pub set_attr_index : ℕ → E → E
  pub set_executable : Bool → E → E
  pub set_privileged_executable : Bool → E → E
  pub calculate_index : ℕ → ℕ → ℕ

-- The trait `TableAllocator`, without the zeros that `alloc_table` writes.
pub record TableAllocator (S : Type 0) : Type 0 where
  pub alloc_table : S → ℕ × S
  pub free_table : ℕ → S → S

pub record Memory (E S : Type 0) : Type 0 where
  pub tables : ℕ → ℕ → E
  pub pool : S

-- The arguments of `map_page` that go into the entry as they are.
pub record Attributes : Type 0 where
  pub access : ℕ
  pub share : ℕ
  pub uxn : Bool
  pub pxn : Bool
  pub attr_index : ℕ

abbrev pub set_entry : {E S : Type 0} → ℕ → ℕ → E → Memory E S → Memory E S
set_entry p i e m = record m { tables = update m.tables p (update (m.tables p) i e) }

module _ {E : Type 0} (t : Tte E) where
  -- `set_is_valid(true)`, `set_is_table()` and `set_address(pa)`.
  abbrev pub table_entry : ℕ → E → E
  table_entry pa e = t.set_address pa (t.set_is_table (t.set_is_valid true e))

  abbrev pub with_attributes : Attributes → E → E
  with_attributes at e = t.set_privileged_executable (not at.pxn) (
      t.set_executable (not at.uxn) (
        t.set_attr_index at.attr_index
          (t.set_shareability at.share (t.set_access_permission at.access (t.set_access e)))))

  -- The entry for a page, at level 3, and for a block, at level 2.
  abbrev pub page_entry : ℕ → Attributes → E → E
  page_entry pa at e = with_attributes at (table_entry pa e)

  abbrev pub block_entry : ℕ → Attributes → E → E
  block_entry pa at e =
      with_attributes at (t.set_address pa (t.set_is_block (t.set_is_valid true e)))

  -- `set_is_valid(false)` and `set_address(0)`.
  abbrev pub cleared : E → E
  cleared e = t.set_address 0 (t.set_is_valid false e)

  -- `is_table_empty`, over the `left` entries from `i` on.
  unfoldable pub empty_from : ℕ → ℕ → (ℕ → E) → Bool
  empty_from zero i table = true
  empty_from (suc left) i table =
      let rest = empty_from left (i + 1) table in if t.is_valid (table i) then false else rest

  unfoldable pub is_table_empty : (ℕ → E) → Bool
  unfolding empty_from
  is_table_empty table = empty_from 2048 0 table

module _ {E : Type 0} (t : Tte E) (tr : AddressTranslator) where
  -- Where an entry leads, if it is valid and leads to a table.
  abbrev pub child : E → Option ℕ
  child e =
      if not (t.is_valid e) || not (t.is_table e)
      then none
      else some (tr.phys_to_dmap (t.address e))

module _ {E S : Type 0} (t : Tte E) (al : TableAllocator S) (tr : AddressTranslator) where
  abbrev pub take_table : Memory E S → ℕ × Memory E S
  take_table m =
      let (p, s) = al.alloc_table m.pool in
      (p, record m { tables = update m.tables p (λ i. t.invalid); pool = s })

  -- A new table is linked at entry `i` of table `p`.
  unfoldable pub link_table : ℕ → ℕ → Memory E S → ℕ × Memory E S
  link_table p i m =
      let (c, m') = take_table m in
      (c, set_entry p i (table_entry t (tr.dmap_to_phys c) (m'.tables p i)) m')

  -- The table below entry `i` of table `p`, which is linked if it is not there: at levels 0 and 1.
  unfoldable pub next_table : ℕ → ℕ → Memory E S → ℕ × Memory E S
  unfolding link_table
  next_table p i m =
      let e = m.tables p i in
      if not (t.address e == 0) && t.is_table e
      then (tr.phys_to_dmap (t.address e), m)
      else link_table p i m

  -- The same at level 2.
  unfoldable pub last_table : ℕ → ℕ → Memory E S → ℕ × Memory E S
  unfolding link_table
  last_table p i m =
      let e = m.tables p i in
      if t.is_valid e then (tr.phys_to_dmap (t.address e), m) else link_table p i m

  unfoldable pub map_page : ℕ → ℕ → ℕ → Attributes → Memory E S → Memory E S
  unfolding next_table last_table
  map_page root pa va at m =
      let (l1_table, m1) = next_table root (t.calculate_index va 0) m in
      let (l2_table, m2) = next_table l1_table (t.calculate_index va 1) m1 in
      let (l3_table, m3) = last_table l2_table (t.calculate_index va 2) m2 in
      let i3 = t.calculate_index va 3 in
      set_entry l3_table i3 (page_entry t pa at (m3.tables l3_table i3)) m3

  unfoldable pub map_l2_block : ℕ → ℕ → ℕ → Attributes → Memory E S → Memory E S
  unfolding next_table
  map_l2_block root pa va at m =
      let (l1_table, m1) = next_table root (t.calculate_index va 0) m in
      let (l2_table, m2) = next_table l1_table (t.calculate_index va 1) m1 in
      let i2 = t.calculate_index va 2 in
      set_entry l2_table i2 (block_entry t pa at (m2.tables l2_table i2)) m2

  -- The loop of `map_region`, from page `i` on.
  unfoldable pub map_each : ℕ → ℕ → ℕ → ℕ → ℕ → Attributes → Memory E S → Memory E S
  unfolding map_page
  map_each zero i root pa va at m = m
  map_each (suc left) i root pa va at m =
      map_each left (i + 1) root pa va at (map_page root (pa + i * 16384) (va + i * 16384) at m)

  -- `map_region`; `none` is an assertion that fails.
  unfoldable pub map_region : ℕ → ℕ → ℕ → ℕ → Attributes → Memory E S → Option (Memory E S)
  unfolding map_each
  map_region root pa va size at m =
      if not (va % 16384 == 0) || not (pa % 16384 == 0) || not (size % 16384 == 0) || ltb size 16384
      then none
      else some (map_each (size / 16384) 0 root pa va at m)

  -- The loop of `id_map`, which maps blocks of 32 MiB.
  unfoldable pub id_map_from : ℕ → ℕ → ℕ → Attributes → Memory E S → Memory E S
  unfolding map_l2_block
  id_map_from zero i root at m = m
  id_map_from (suc left) i root at m =
      id_map_from left (i + 1) root at (map_l2_block root (i * 2 ^ 25) (i * 2 ^ 25) at m)

  unfoldable pub id_map : ℕ → Attributes → Memory E S → Memory E S
  unfolding id_map_from
  id_map root at m = id_map_from 2048 0 root at m

  abbrev pub clear_entry : ℕ → ℕ → Memory E S → Memory E S
  clear_entry p i m = set_entry p i (cleared t (m.tables p i)) m

  -- `free_table`, and the entry that leads to the table is cleared.
  unfoldable pub unlink_table : ℕ → ℕ → ℕ → Memory E S → Memory E S
  unlink_table c p i m = clear_entry p i (record m { pool = al.free_table c m.pool })

  -- `unmap_page`, once the tables of the address are found.
  unfoldable pub unmap_in : ℕ → ℕ → ℕ → ℕ → ℕ → Memory E S → Memory E S
  unfolding is_table_empty unlink_table
  unmap_in root l1 l2 l3 va m =
      let i3 = t.calculate_index va 3 in
      let m3 = clear_entry l3 i3 m in
      let m2 = unlink_table l3 l2 (t.calculate_index va 2) m3 in
      let m1 = unlink_table l2 l1 (t.calculate_index va 1) m2 in
      let m0 = unlink_table l1 root (t.calculate_index va 0) m1 in
      if not (t.is_valid (m.tables l3 i3))
      then m
      else if not (is_table_empty t (m3.tables l3))
      then m3
      else if not (is_table_empty t (m2.tables l2))
      then m2
      else if not (is_table_empty t (m1.tables l1))
      then m1
      else m0

  unfoldable pub unmap_page : ℕ → ℕ → Memory E S → Memory E S
  unfolding unmap_in
  unmap_page root va m = elim (child t tr (m.tables root (t.calculate_index va 0))) [
    | none ↦ m
    | some l1 ↦ elim (child t tr (m.tables l1 (t.calculate_index va 1))) [
      | none ↦ m
      | some l2 ↦ elim (child t tr (m.tables l2 (t.calculate_index va 2))) [
        | none ↦ m
        | some l3 ↦ unmap_in root l1 l2 l3 va m
      ]
    ]
  ]

  unfoldable pub unmap_each : ℕ → ℕ → ℕ → ℕ → Memory E S → Memory E S
  unfolding unmap_page
  unmap_each zero i root va m = m
  unmap_each (suc left) i root va m =
      unmap_each left (i + 1) root va (unmap_page root (va + i * 16384) m)

  unfoldable pub unmap_region : ℕ → ℕ → ℕ → Memory E S → Option (Memory E S)
  unfolding unmap_each
  unmap_region root va size m =
      if not (va % 16384 == 0) || not (size % 16384 == 0)
      then none
      else some (unmap_each (size / 16384) 0 root va m)
