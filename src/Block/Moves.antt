-- ===== src/Block/Moves.antt =====
-- klib/src/block/mod.rs: which changes of an adapter and one consumer keep the invariant of sharing.
use mars.Prelude.Int.{pos_part}
use mars.Prelude.Family.{update, sum_below-update, weight-le-sum_below}
use mars.Block.Access.{HasCounts, IsIdle}
use mars.Block.Nodes.{HardwareAdapter, Consumer}
use mars.Block.Types.{BlockDevice}
use mars.Prelude.{ℕ, ◌+◌, ◌<◌, ◌≤◌, ◌≡◌, ◌≢◌, arith, ℕ_discrete, dec_lt}
use mars.Block.Sharing.{
  System, Inv, ConsumerHasCounts, exclusives_of, HoldsNothing, reads_of, writes_of,
}

-- A change of the adapter's counts from `h` to `h'` and of one consumer's from `c` to `c'`, under
-- which the invariant lasts.
pub record Move {D : Type 0} (dev : BlockDevice D) (h : HardwareAdapter D) (c : Consumer)
    (h' : HardwareAdapter D) (c' : Consumer) : Type 0 where
  pub adapter_counts : HasCounts dev h'
  pub consumer_counts : ConsumerHasCounts c'
  pub reads : pos_part h.read_count + reads_of c' ≤ pos_part h'.read_count + reads_of c
  pub writes : pos_part h.write_count + writes_of c' ≤ pos_part h'.write_count + writes_of c
  pub exclusives :
      pos_part h.exclusive_count + exclusives_of c' ≤ pos_part h'.exclusive_count + exclusives_of c
  pub alone : pos_part h.exclusive_count ≡ 0 → 0 < exclusives_of c' → IsIdle dev h
  pub shrinks :
      0 < pos_part h.exclusive_count
      → (reads_of c' ≤ reads_of c)
        × (writes_of c' ≤ writes_of c)
        × (exclusives_of c' ≤ exclusives_of c)

module _ {D : Type 0} (dev : BlockDevice D) {n : ℕ} {s : System D} (inv : Inv dev n s) (i : ℕ)
    (lt : i < n) where
  module _ {h' : HardwareAdapter D} {c' : Consumer}
      (m : Move dev s.adapter (s.consumers i) h' c') where
    abbrev pub moved : ℕ → Consumer
    moved = update s.consumers i c'

    moved-counts : (j : ℕ) → ConsumerHasCounts (moved j)
    moved-counts j = ground (arith, m.consumer_counts, inv.consumer_counts j)

    -- An idle adapter has no consumer that holds it.
    idle-HoldsNothing : IsIdle dev s.adapter → (j : ℕ) → j < n → HoldsNothing (s.consumers j)
    idle-HoldsNothing idle j h = omega (
      arith,
      inv.reads_le,
      inv.writes_le,
      inv.exclusives_le,
      weight-le-sum_below reads_of n s.consumers j h,
      weight-le-sum_below writes_of n s.consumers j h,
      weight-le-sum_below exclusives_of n s.consumers j h,
    )

    mover-excludes : (j : ℕ) → j < n → i ≢ j → 0 < exclusives_of c' → HoldsNothing (s.consumers j)
    mover-excludes j h ne p = elim (dec_lt 0 (pos_part s.adapter.exclusive_count)) [
      | yes held ↦ inv.exclusion i j lt h ne (omega (arith, (m.shrinks held).2))
      | no free ↦ idle-HoldsNothing (m.alone (omega arith) p) j h
    ]

    mover-excluded : (k : ℕ) → k < n → k ≢ i → 0 < exclusives_of (s.consumers k) → HoldsNothing c'
    mover-excluded k h ne p =
        let held : 0 < pos_part s.adapter.exclusive_count =
          omega (arith, inv.exclusives_le, weight-le-sum_below exclusives_of n s.consumers k h) in
        omega (arith, m.shrinks held, inv.exclusion k i h lt ne p)

    moved-exclusion :
        (k j : ℕ) → k < n → j < n → k ≢ j → 0 < exclusives_of (moved k) → HoldsNothing (moved j)
    moved-exclusion k j hk hj ne p = elim (ℕ_discrete k i) [
      | yes a ↦ elim (ℕ_discrete j i) [
        | yes b ↦ absurd (omega arith)
        | no b ↦ ground (arith, mover-excludes j hj)
      ]
      | no a ↦ elim (ℕ_discrete j i) [
        | yes b ↦ ground (arith, mover-excluded k hk)
        | no b ↦ ground (arith, inv.exclusion k j hk hj ne)
      ]
    ]

    pub Move-Inv : Inv dev n (record { adapter = h'; consumers = moved })
    Move-Inv = record {
      adapter_counts = m.adapter_counts;
      consumer_counts = moved-counts;
      reads_le =
          omega (arith, inv.reads_le, m.reads, sum_below-update reads_of n s.consumers i c' lt);
      writes_le =
          omega (arith, inv.writes_le, m.writes, sum_below-update writes_of n s.consumers i c' lt);
      exclusives_le = omega (
        arith,
        inv.exclusives_le,
        m.exclusives,
        sum_below-update exclusives_of n s.consumers i c' lt,
      );
      exclusion = moved-exclusion;
    }
