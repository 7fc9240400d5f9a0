-- ===== src/Block/Sharing.antt =====
-- klib/src/block/mod.rs: several consumers attached to one hardware adapter, in any order of calls.
use mars.Prelude.{ℕ, ◌<◌, ◌≤◌, ◌≡◌, ◌≢◌}
use mars.Prelude.Int.{ℤ, pos_part}
use mars.Prelude.Family.{update, sum_below}
use mars.Block.Types.{IoRequest, BlockDevice}
use mars.Block.Nodes.{
  Consumer, attach, HardwareAdapter, new_adapter, adapter_provider, consumer_access,
  consumer_request, consumer_drop,
}
use mars.Block.Access.{IsCount, IsIsize, HasCounts}

pub record System (D : Type 0) : Type 0 where
  pub adapter : HardwareAdapter D
  pub consumers : ℕ → Consumer

module _ {D : Type 0} (dev : BlockDevice D) where
  -- Consumer `i` of `n` makes one call. A dropped consumer's place is taken by a new one.
  pub data Step (n : ℕ) (s : System D) : System D → Type 0 where
    access :
        (i : ℕ) (r w e : ℤ)
        → i < n
        → IsIsize r × IsIsize w × IsIsize e
        → Step n s (
            let (result, h, c) =
              consumer_access (adapter_provider dev) s.adapter (s.consumers i) r w e in
            record { adapter = h; consumers = update s.consumers i c })
    request :
        (i : ℕ) (req : IoRequest)
        → i < n
        → Step n s (record s {
          adapter = (consumer_request (adapter_provider dev) s.adapter (s.consumers i) req).2;
        })
    leave :
        (i : ℕ)
        → i < n
        → Step n s (record {
          adapter = consumer_drop (adapter_provider dev) s.adapter (s.consumers i);
          consumers = update s.consumers i attach;
        })

  pub data Reach (n : ℕ) (d : D) : System D → Type 0 where
    start : Reach n d (record { adapter = new_adapter dev d; consumers = λ i. attach })
    later : {s t : System D} → Reach n d s → Step n s t → Reach n d t

abbrev pub reads_of : Consumer → ℕ
reads_of c = pos_part c.read_count

abbrev pub writes_of : Consumer → ℕ
writes_of c = pos_part c.write_count

abbrev pub exclusives_of : Consumer → ℕ
exclusives_of c = pos_part c.exclusive_count

abbrev pub HoldsNothing : Consumer → Type 0
HoldsNothing c = (reads_of c ≡ 0) × (writes_of c ≡ 0) × (exclusives_of c ≡ 0)

abbrev pub ConsumerHasCounts : Consumer → Type 0
ConsumerHasCounts c = IsCount c.read_count × IsCount c.write_count × IsCount c.exclusive_count

-- Counts are valid; the adapter's are at least the sums of the consumers'; and a consumer that
-- holds the adapter exclusively is the only one that holds it.
pub record Inv {D : Type 0} (dev : BlockDevice D) (n : ℕ) (s : System D) : Type 0 where
  pub adapter_counts : HasCounts dev s.adapter
  pub consumer_counts : (i : ℕ) → ConsumerHasCounts (s.consumers i)
  pub reads_le : sum_below reads_of n s.consumers ≤ pos_part s.adapter.read_count
  pub writes_le : sum_below writes_of n s.consumers ≤ pos_part s.adapter.write_count
  pub exclusives_le : sum_below exclusives_of n s.consumers ≤ pos_part s.adapter.exclusive_count
  pub exclusion :
      (i j : ℕ)
      → i < n
      → j < n
      → i ≢ j
      → 0 < exclusives_of (s.consumers i)
      → HoldsNothing (s.consumers j)
