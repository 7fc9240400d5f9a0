-- ===== src/Block/Nodes.antt =====
-- klib/src/block/mod.rs, lines 132 to 397: `Consumer`, `HardwareAdapter` and `Partition`. A provider
-- that consumers share (`Arc<SleepingMutex<dyn Provider>>`) is a state passed along with the
-- consumer; each call holds its lock from beginning to end. Names of nodes are left out.
use mars.Prelude.{ℕ, ◌%◌, ◌&&◌, ◌||◌, not, List, length, ltb, ◌==◌, if◌then◌else◌}
use mars.Prelude.Int.{ℤ, pos}
use mars.Block.Types.{
  out_of_bounds, unaligned_buffer, read_only, not_ready, in_use, invalid_partition,
  access_underflow, Result, ok, err, ◌>>=◌, ◌>>◌, require, checked_add, add_isize, neg_isize,
  is_negative, is_positive, Command, read, write, flush, delete, IoRequest, blocks, is_flush,
  read_buffer, Reply, BlockDevice, Provider,
}

pub record Consumer : Type 0 where
  pub read_count : ℤ
  pub write_count : ℤ
  pub exclusive_count : ℤ

-- `Consumer::attach`.
abbrev pub attach : Consumer
attach = record { read_count = pos 0; write_count = pos 0; exclusive_count = pos 0 }

-- The bounds check of a request of `n` blocks at `lba`, on a provider of `cap` blocks.
unfoldable pub check_bounds : ℕ → ℕ → ℕ → Result (Unit {0})
unfolding checked_add
check_bounds cap lba n = do
  require (not (cap == 0 || ltb cap lba)) out_of_bounds
  end ← checked_add lba n out_of_bounds
  require (not (ltb cap end)) out_of_bounds

-- The checks by kind of command: alignment, then how the provider has been opened.
unfoldable pub check_open : Consumer → ℕ → Command → Result (Unit {0})
check_open c block_size (read buf) = do
  require (length buf % block_size == 0) unaligned_buffer
  require (is_positive c.read_count) not_ready
check_open c block_size (write buf) = do
  require (length buf % block_size == 0) unaligned_buffer
  require (is_positive c.write_count) read_only
check_open c block_size (delete n) = require (is_positive c.write_count) read_only
check_open c block_size flush = ok tt

-- What `Consumer::request` tests before it passes a request on.
unfoldable pub check_request : Consumer → ℕ → ℕ → IoRequest → Result (Unit {0})
unfolding blocks check_bounds check_open
check_request c block_size cap req = do
  n ← blocks req block_size
  (if is_flush req.cmd then ok tt else check_bounds cap req.lba n)
  check_open c block_size req.cmd

module _ {S : Type 0} (p : Provider S) where
  -- `Consumer::access`.
  unfoldable pub consumer_access : S → Consumer → ℤ → ℤ → ℤ → Result (Unit {0}) × S × Consumer
  consumer_access s c r w e =
      let new_r = add_isize c.read_count r in
      let new_w = add_isize c.write_count w in
      let new_e = add_isize c.exclusive_count e in
      if is_negative new_r || is_negative new_w || is_negative new_e
      then (err access_underflow, s, c)
      else (let (result, s') = p.access s r w e in
          elim result [
            | ok _ ↦ (
              ok tt,
              s',
              record { read_count = new_r; write_count = new_w; exclusive_count = new_e },
            )
            | err why ↦ (err why, s', c)
          ])

  -- `Consumer::request`.
  unfoldable pub consumer_request : S → Consumer → IoRequest → Reply S
  unfolding check_request
  consumer_request s c req = elim (check_request c (p.block_size s) (p.block_count s) req) [
    | ok _ ↦ p.request s req
    | err why ↦ (err why, read_buffer req.cmd, s)
  ]

  -- `Drop for Consumer`. The result of the last `access` is dropped too.
  unfoldable pub consumer_drop : S → Consumer → S
  consumer_drop s c =
      if is_positive c.read_count || is_positive c.write_count || is_positive c.exclusive_count
      then (p.access s (neg_isize c.read_count) (neg_isize c.write_count)
          (neg_isize c.exclusive_count)).1
      else s

pub record HardwareAdapter (D : Type 0) : Type 0 where
  pub device : D
  pub read_count : ℤ
  pub write_count : ℤ
  pub exclusive_count : ℤ

module _ {D : Type 0} (dev : BlockDevice D) where
  abbrev pub new_adapter : D → HardwareAdapter D
  new_adapter d = record {
    device = d;
    read_count = pos 0;
    write_count = pos 0;
    exclusive_count = pos 0;
  }

  -- The early returns of `HardwareAdapter::access`, for the new counts `new_r`, `new_w`, `new_e`.
  unfoldable pub check_access :
      HardwareAdapter D → (r w e new_r new_w new_e : ℤ) → Result (Unit {0})
  check_access h r w e new_r new_w new_e = do
    require (not (is_negative new_r || is_negative new_w || is_negative new_e)) access_underflow
    require
        (not (
          is_positive e
          && (is_positive h.read_count
              || is_positive h.write_count
              || is_positive h.exclusive_count)))
        in_use
    require
        (not (is_positive h.exclusive_count && (is_positive r || is_positive w || is_positive e)))
        in_use

  -- The rest of it: the last writer flushes the device, then the counts change.
  unfoldable pub commit :
      HardwareAdapter D → (new_r new_w new_e : ℤ) → Result (Unit {0}) × HardwareAdapter D
  commit h new_r new_w new_e =
      if is_positive h.write_count && not (is_positive new_w)
      then (let (result, d) = dev.flush_device h.device in
          elim result [
            | ok _ ↦ (
              ok tt,
              record {
                device = d;
                read_count = new_r;
                write_count = new_w;
                exclusive_count = new_e;
              },
            )
            | err why ↦ (err why, record h { device = d })
          ])
      else (ok tt, record h { read_count = new_r; write_count = new_w; exclusive_count = new_e })

  -- `HardwareAdapter::access`.
  unfoldable pub adapter_access :
      HardwareAdapter D → ℤ → ℤ → ℤ → Result (Unit {0}) × HardwareAdapter D
  unfolding check_access commit
  adapter_access h r w e =
      let new_r = add_isize h.read_count r in
      let new_w = add_isize h.write_count w in
      let new_e = add_isize h.exclusive_count e in
      elim (check_access h r w e new_r new_w new_e) [
        | ok _ ↦ commit h new_r new_w new_e
        | err why ↦ (err why, h)
      ]

  perform : HardwareAdapter D → ℕ → Command → Reply (HardwareAdapter D)
  perform h lba (read buf) =
      let (result, buf', d) = dev.read_blocks h.device lba buf in
      (result, buf', record h { device = d })
  perform h lba (write buf) =
      let (result, d) = dev.write_blocks h.device lba buf in
      (result, List.[], record h { device = d })
  perform h lba flush =
      let (result, d) = dev.flush_device h.device in (result, List.[], record h { device = d })
  perform h lba (delete n) =
      let (result, d) = dev.delete_blocks h.device lba n in
      (result, List.[], record h { device = d })

  -- `HardwareAdapter::request`.
  unfoldable pub adapter_request : HardwareAdapter D → IoRequest → Reply (HardwareAdapter D)
  unfolding perform
  adapter_request h req = perform h req.lba req.cmd

  -- `Drop for HardwareAdapter`: the device that is left.
  unfoldable pub adapter_drop : HardwareAdapter D → D
  adapter_drop h = if is_positive h.write_count then (dev.flush_device h.device).1 else h.device

  abbrev pub adapter_provider : Provider (HardwareAdapter D)
  adapter_provider = record {
    block_size = λ h. dev.device_block_size h.device;
    block_count = λ h. dev.device_block_count h.device;
    access = adapter_access;
    request = adapter_request;
  }

-- A partition, with the state of the provider that its parent consumer is attached to.
pub record Partition (S : Type 0) : Type 0 where
  pub parent : Consumer
  pub start_lba : ℕ
  pub blocks_held : ℕ  -- `block_count`
  pub below : S

module _ {S : Type 0} (p : Provider S) where
  -- `Partition::new`.
  unfoldable pub new_partition : S → Consumer → ℕ → ℕ → Result (Partition S)
  unfolding checked_add
  new_partition s parent start count = do
    require (not (ltb (p.block_count s) start)) invalid_partition
    end ← checked_add start count invalid_partition
    require (not (ltb (p.block_count s) end)) invalid_partition
    ok (record { parent = parent; start_lba = start; blocks_held = count; below = s })

  -- `Partition::access`.
  unfoldable pub partition_access : Partition S → ℤ → ℤ → ℤ → Result (Unit {0}) × Partition S
  unfolding consumer_access
  partition_access q r w e =
      let (result, s, c) = consumer_access p q.below q.parent r w e in
      (result, record q { parent = c; below = s })

  -- The request as the parent sees it: the tests of the partition, then the shifted address.
  unfoldable pub translate : Partition S → IoRequest → Result IoRequest
  unfolding blocks checked_add
  translate q req = if is_flush req.cmd then ok req else (do
    n ← blocks req (p.block_size q.below)
    require (not (ltb q.blocks_held req.lba)) out_of_bounds
    end ← checked_add req.lba n out_of_bounds
    require (not (ltb q.blocks_held end)) out_of_bounds
    lba ← checked_add req.lba q.start_lba out_of_bounds
    ok (record req { lba = lba }))

  -- `Partition::request`.
  unfoldable pub partition_request : Partition S → IoRequest → Reply (Partition S)
  unfolding translate consumer_request
  partition_request q req = elim (translate q req) [
    | ok shifted ↦
        let (result, buf, s) = consumer_request p q.below q.parent shifted in
        (result, buf, record q { below = s })
    | err why ↦ (err why, read_buffer req.cmd, q)
  ]

  abbrev pub partition_provider : Provider (Partition S)
  partition_provider = record {
    block_size = λ q. p.block_size q.below;
    block_count = λ q. q.blocks_held;
    access = partition_access;
    request = partition_request;
  }
