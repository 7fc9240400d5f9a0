-- ===== src/Paging/Trees.antt =====
-- klib/src/pm/page/mapper.rs: the copy and the release of a whole tree of tables.
use mars.Prelude.{ℕ, zero, suc, ◌+◌, false, not, ◌&&◌, if◌then◌else◌}
use mars.Pages.Requests.{AddressTranslator}
use mars.Paging.Tables.{Tte, TableAllocator, Memory, set_entry, take_table}

module _ {E S : Type 0} (t : Tte E) (al : TableAllocator S) (tr : AddressTranslator) where
  -- The loop of `clone_l3`, over the `left` entries from `i` on.
  unfoldable pub copy_entries : ℕ → ℕ → ℕ → ℕ → Memory E S → Memory E S
  copy_entries zero i old new m = m
  copy_entries (suc left) i old new m =
      copy_entries left (i + 1) old new (set_entry new i (m.tables old i) m)

  unfoldable pub clone_l3 : ℕ → Memory E S → ℕ × Memory E S
  unfolding copy_entries
  clone_l3 old m = let (new, m1) = take_table t al tr m in (new, copy_entries 2048 0 old new m1)

  -- One entry of a table above level 3. The address of the table below is taken for a pointer, and the
  -- pointer of its copy for an address, as it is where memory is mapped to itself.
  unfoldable pub clone_entry :
      (ℕ → Memory E S → ℕ × Memory E S) → ℕ → ℕ → ℕ → Memory E S → Memory E S
  clone_entry next i old new m =
      let e = m.tables old i in
      let (below, m1) = next (t.address e) m in
      if not (t.is_valid e)
      then m
      else if t.is_table e
      then set_entry new i (t.set_address below e) m1
      else set_entry new i e m

  unfoldable pub clone_entries :
      (ℕ → Memory E S → ℕ × Memory E S) → ℕ → ℕ → ℕ → ℕ → Memory E S → Memory E S
  unfolding clone_entry
  clone_entries next zero i old new m = m
  clone_entries next (suc left) i old new m =
      clone_entries next left (i + 1) old new (clone_entry next i old new m)

  -- The function that the macro `impl_clone_pt_level` makes of the one for the next level.
  unfoldable pub clone_level : (ℕ → Memory E S → ℕ × Memory E S) → ℕ → Memory E S → ℕ × Memory E S
  unfolding clone_entries
  clone_level next old m =
      let (new, m1) = take_table t al tr m in (new, clone_entries next 2048 0 old new m1)

  unfoldable pub clone_page_tables : ℕ → Memory E S → ℕ × Memory E S
  unfolding clone_l3 clone_level
  clone_page_tables old m = clone_level (clone_level (clone_level clone_l3)) old m

  -- The loop over the entries of a table of level 3.
  unfoldable pub invalidate_entries : ℕ → ℕ → ℕ → Memory E S → Memory E S
  invalidate_entries zero i p m = m
  invalidate_entries (suc left) i p m =
      let e = m.tables p i in
      invalidate_entries left (i + 1) p
        (if t.is_valid e && t.is_table e then set_entry p i (t.set_is_valid false e) m else m)

  abbrev pub give_back : ℕ → Memory E S → Memory E S
  give_back p m = record m { pool = al.free_table p m.pool }

  unfoldable pub free_l3 : ℕ → Memory E S → Memory E S
  unfolding invalidate_entries
  free_l3 p m = give_back p (invalidate_entries 2048 0 p m)

  -- The loop over the first entries of a table above level 3.
  unfoldable pub free_below : (ℕ → Memory E S → Memory E S) → ℕ → ℕ → ℕ → Memory E S → Memory E S
  free_below next zero i p m = m
  free_below next (suc left) i p m =
      let e = m.tables p i in
      free_below next left (i + 1) p
        (if t.is_valid e && t.is_table e then next (tr.phys_to_dmap (t.address e)) m else m)

  unfoldable pub free_level : (ℕ → Memory E S → Memory E S) → ℕ → Memory E S → Memory E S
  unfolding free_below
  free_level next p m = give_back p (free_below next 2048 0 p m)

  unfoldable pub free_tables : ℕ → Memory E S → Memory E S
  unfolding free_l3 free_level
  free_tables root m = give_back root (free_below (free_level (free_level free_l3)) 2 0 root m)
