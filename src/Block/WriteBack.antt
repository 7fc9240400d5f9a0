-- ===== src/Block/WriteBack.antt =====
-- klib/src/block/mod.rs, `HardwareAdapter::access`: the caches are flushed when the last writer goes.

use mars.Block.Forward.{Result-cases}
use mars.Prelude.Int.{ℤ, pos_part}
use mars.Block.Nodes.{HardwareAdapter, check_access, commit, adapter_access}
use mars.Block.Types.{BlockDevice, ok, BlockError, add_isize, err, is_negative, Result, is_positive}
use mars.Prelude.{◌<◌, ◌≡◌, arith, ◌⊎◌, true, Bool-cases, inl, ◌&&◌, inr, not, ap}

module _ {D : Type 0} (dev : BlockDevice D) where
  -- A count would be negative, or what is held exclusively would be shared.
  abbrev pub IsRefused : HardwareAdapter D → (r w e : ℤ) → Type 0
  IsRefused h r w e =
      (is_negative (add_isize h.read_count r) ≡ true)
      ⊎ ((is_negative (add_isize h.write_count w) ≡ true)
          ⊎ ((is_negative (add_isize h.exclusive_count e) ≡ true)
              ⊎ (((0 < pos_part e)
                    × ((0 < pos_part h.read_count)
                        ⊎ ((0 < pos_part h.write_count) ⊎ (0 < pos_part h.exclusive_count))))
                  ⊎ ((0 < pos_part h.exclusive_count)
                      × ((0 < pos_part r) ⊎ ((0 < pos_part w) ⊎ (0 < pos_part e)))))))

  -- The access takes away the last writer.
  abbrev pub LastWriter : HardwareAdapter D → ℤ → Type 0
  LastWriter h w = (0 < pos_part h.write_count) × (pos_part (add_isize h.write_count w) ≡ 0)

  abbrev pub with_device : HardwareAdapter D → D → HardwareAdapter D
  with_device h d = record h { device = d }

  abbrev pub with_counts : HardwareAdapter D → (r w e : ℤ) → D → HardwareAdapter D
  with_counts h r w e d = record {
    device = d;
    read_count = add_isize h.read_count r;
    write_count = add_isize h.write_count w;
    exclusive_count = add_isize h.exclusive_count e;
  }

  -- What the access answers, with the adapter that it leaves.
  pub data WrittenBack (h : HardwareAdapter D) (r w e : ℤ)
      : Result (Unit {0}) × HardwareAdapter D → Type 0 where
    refused : (x : BlockError) → IsRefused h r w e → WrittenBack h r w e (err x, h)
    left_alone :
        ¬ IsRefused h r w e
        → ¬ LastWriter h w
        → WrittenBack h r w e (ok tt, with_counts h r w e h.device)
    flushed :
        (d : D)
        → ¬ IsRefused h r w e
        → LastWriter h w
        → dev.flush_device h.device ≡ (ok tt, d)
        → WrittenBack h r w e (ok tt, with_counts h r w e d)
    unflushed :
        (x : BlockError) (d : D)
        → ¬ IsRefused h r w e
        → LastWriter h w
        → dev.flush_device h.device ≡ (err x, d)
        → WrittenBack h r w e (err x, with_device h d)

  check_access-passes :
      (h : HardwareAdapter D) (r w e : ℤ)
      → check_access dev h r w e
          (add_isize h.read_count r)
          (add_isize h.write_count w)
          (add_isize h.exclusive_count e)
        ≡ ok tt
      → ¬ IsRefused h r w e
  unfolding check_access
  check_access-passes h r w e p c = ground arith

  check_access-stops :
      (h : HardwareAdapter D) (r w e : ℤ) {x : BlockError}
      → check_access dev h r w e
          (add_isize h.read_count r)
          (add_isize h.write_count w)
          (add_isize h.exclusive_count e)
        ≡ err x
      → IsRefused h r w e
  unfolding check_access
  check_access-stops h r w e p = ground arith

  commit-WrittenBack :
      (h : HardwareAdapter D) (r w e : ℤ)
      → ¬ IsRefused h r w e
      → WrittenBack h r w e (
          commit dev h
            (add_isize h.read_count r)
            (add_isize h.write_count w)
            (add_isize h.exclusive_count e))
  unfolding commit
  commit-WrittenBack h r w e granted =
      elim (Bool-cases
        (is_positive h.write_count && not (is_positive (add_isize h.write_count w)))) [
          | inr more ↦ rw (commit, more) (left_alone granted (λ l. ground arith))
          | inl goes ↦
              let leaves : LastWriter h w = ground arith in
              let d = (dev.flush_device h.device).1 in
              elim (Result-cases (dev.flush_device h.device).0) [
                | inl (tt, done) ↦
                    rw (commit, goes, done) (flushed d granted leaves (ap (λ x. (x, d)) done))
                | inr (x, failed) ↦
                    rw (commit, goes, failed)
                      (unflushed x d granted leaves (ap (λ y. (y, d)) failed))
              ]
        ]

  -- An access is refused exactly when a count would be negative or something held exclusively would be
  -- shared, and then nothing changes, the device included. A granted access that takes away the last
  -- writer flushes the device: if that succeeds the counts change, and if it fails the access fails
  -- with the error and the counts as they were, on the device that the flush has left. Any other
  -- granted access changes the counts and leaves the device alone.
  pub adapter_access-WrittenBack :
      (h : HardwareAdapter D) (r w e : ℤ) → WrittenBack h r w e (adapter_access dev h r w e)
  unfolding adapter_access
  adapter_access-WrittenBack h r w e =
      elim (Result-cases (
        check_access dev h r w e (add_isize h.read_count r) (add_isize h.write_count w)
          (add_isize h.exclusive_count e))) [
            | inl (tt, p) ↦
                rw (adapter_access, p) (commit-WrittenBack h r w e (check_access-passes h r w e p))
            | inr (x, p) ↦ rw (adapter_access, p) (refused x (check_access-stops h r w e p))
          ]
