-- ===== src/Block/Access.antt =====
-- klib/src/block/mod.rs: what `HardwareAdapter::access` grants, and when it flushes the device.
use mars.Block.Forward.{Result-cases}
use mars.Prelude.{◌+◌, ◌^◌, ◌<◌, ◌≤◌, ◌≡◌, ◌⊎◌, refl, arith, false, inl, inr}
use mars.Prelude.Int.{ℤ, pos_part, neg_part, ◌+ℤ◌}
use mars.Block.Types.{Result, ok, err, add_isize, is_negative, BlockDevice, wrap_isize, BlockError}
use mars.Block.Nodes.{HardwareAdapter, adapter_access, check_access, commit}

-- A count that an `isize` can hold and that is not negative.
abbrev pub IsCount : ℤ → Type 0
IsCount a = (neg_part a ≡ 0) × (pos_part a < 2 ^ 63)

abbrev pub IsIsize : ℤ → Type 0
IsIsize a = (neg_part a ≤ 2 ^ 63) × (pos_part a < 2 ^ 63)

-- `b` is the count `a` after a change by `d`, with no wrap.
abbrev pub Changed : ℤ → ℤ → ℤ → Type 0
Changed a d b = (pos_part b + neg_part d ≡ pos_part a + pos_part d) × IsCount b

-- A sum that is not negative has not wrapped.
pub add_isize-Changed :
    (a d : ℤ)
    → IsCount a
    → IsIsize d
    → is_negative (add_isize a d) ≡ false
    → Changed a d (add_isize a d)
unfolding add_isize wrap_isize ◌+ℤ◌
add_isize-Changed a d ha hd h = ground arith

module _ {D : Type 0} (dev : BlockDevice D) where
  abbrev pub IsIdle : HardwareAdapter D → Type 0
  IsIdle h =
      (pos_part h.read_count ≡ 0) × (pos_part h.write_count ≡ 0) × (pos_part h.exclusive_count ≡ 0)

  abbrev pub HasCounts : HardwareAdapter D → Type 0
  HasCounts h = IsCount h.read_count × IsCount h.write_count × IsCount h.exclusive_count

  -- What the early returns make sure of.
  check_access-ok :
      (h : HardwareAdapter D) (r w e new_r new_w new_e : ℤ)
      → check_access dev h r w e new_r new_w new_e ≡ ok tt
      → (is_negative new_r ≡ false)
        × (is_negative new_w ≡ false)
        × (is_negative new_e ≡ false)
        × (0 < pos_part e
            → (pos_part h.read_count ≡ 0)
              × (pos_part h.write_count ≡ 0)
              × (pos_part h.exclusive_count ≡ 0))
        × (0 < pos_part h.exclusive_count → (pos_part r ≡ 0) × (pos_part w ≡ 0) × (pos_part e ≡ 0))
  unfolding check_access
  check_access-ok h r w e new_r new_w new_e q = ground arith

  -- A change of the counts succeeds with them all set, or fails with none.
  commit-counts :
      (h : HardwareAdapter D) (new_r new_w new_e : ℤ)
      → let (result, h') = commit dev h new_r new_w new_e in
        ((result ≡ ok tt)
          × (h'.read_count ≡ new_r)
          × (h'.write_count ≡ new_w)
          × (h'.exclusive_count ≡ new_e))
        ⊎ ((x : BlockError) × (result ≡ err x)
            × (h'.read_count ≡ h.read_count)
            × (h'.write_count ≡ h.write_count)
            × (h'.exclusive_count ≡ h.exclusive_count))
  unfolding commit
  commit-counts h new_r new_w new_e = ground arith

  pub record Granted (h : HardwareAdapter D) (r w e : ℤ) (h' : HardwareAdapter D) : Type 0 where
    pub reads : Changed h.read_count r h'.read_count
    pub writes : Changed h.write_count w h'.write_count
    pub exclusives : Changed h.exclusive_count e h'.exclusive_count
    pub alone : 0 < pos_part e → IsIdle h
    pub no_more :
        0 < pos_part h.exclusive_count → (pos_part r ≡ 0) × (pos_part w ≡ 0) × (pos_part e ≡ 0)

  pub record SameCounts (h h' : HardwareAdapter D) : Type 0 where
    pub reads : h'.read_count ≡ h.read_count
    pub writes : h'.write_count ≡ h.write_count
    pub exclusives : h'.exclusive_count ≡ h.exclusive_count

  abbrev pub AccessOutcome :
      HardwareAdapter D → (r w e : ℤ) → Result (Unit {0}) × HardwareAdapter D → Type 0
  AccessOutcome h r w e out =
      ((out.0 ≡ ok tt) × Granted h r w e out.1)
      ⊎ ((x : BlockError) × (out.0 ≡ err x) × SameCounts h out.1)

  passed-outcome :
      (h : HardwareAdapter D) (r w e : ℤ)
      → HasCounts h
      → IsIsize r × IsIsize w × IsIsize e
      → check_access dev h r w e
          (add_isize h.read_count r)
          (add_isize h.write_count w)
          (add_isize h.exclusive_count e)
        ≡ ok tt
      → AccessOutcome h r w e (
          commit dev h
            (add_isize h.read_count r)
            (add_isize h.write_count w)
            (add_isize h.exclusive_count e))
  passed-outcome h r w e hc hi q =
      let c = check_access-ok h r w e _ _ _ q in
      elim (commit-counts h (add_isize h.read_count r) (add_isize h.write_count w)
        (add_isize h.exclusive_count e)) [
          | inl (done, er, ew, ee) ↦ inl (
            done,
            record {
              reads = rw er (add_isize-Changed h.read_count r hc.0 hi.0 c.0);
              writes = rw ew (add_isize-Changed h.write_count w hc.1 hi.1 c.1);
              exclusives = rw ee (add_isize-Changed h.exclusive_count e hc.2 hi.2 c.2);
              alone = c.3;
              no_more = c.4;
            },
          )
          | inr (x, failed, er, ew, ee) ↦
              inr (x, failed, record { reads = er; writes = ew; exclusives = ee })
        ]

  -- An access of an adapter whose counts are valid either succeeds, and then each count has changed
  -- by its delta without wrapping, an exclusive access has found the adapter idle, and an adapter
  -- held exclusively has given out nothing more; or it fails and every count is as it was.
  pub adapter_access-outcome :
      (h : HardwareAdapter D) (r w e : ℤ)
      → HasCounts h
      → IsIsize r × IsIsize w × IsIsize e
      → AccessOutcome h r w e (adapter_access dev h r w e)
  unfolding adapter_access
  adapter_access-outcome h r w e hc hi =
      elim (Result-cases (
        check_access dev h r w e (add_isize h.read_count r) (add_isize h.write_count w)
          (add_isize h.exclusive_count e))) [
            | inl (tt, q) ↦ rw (q, adapter_access) (passed-outcome h r w e hc hi q)
            | inr (x, q) ↦
                rw (q, adapter_access)
                  (inr (x, refl, record { reads = refl; writes = refl; exclusives = refl }))
          ]
