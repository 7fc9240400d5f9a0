-- ===== src/Block/Calls.antt =====
-- klib/src/block/mod.rs: every access and every drop of a consumer is such a change.
use mars.Block.Moves.{Move}
use mars.Prelude.Int.{pos_part, ℤ, ◌-ℤ◌, neg_part}
use mars.Block.Access.{
  HasCounts, IsIsize, IsCount, Granted, SameCounts, Changed, adapter_access-outcome,
  add_isize-Changed,
}
use mars.Block.Nodes.{
  HardwareAdapter, Consumer, consumer_access, consumer_drop, adapter_provider, attach,
  adapter_access,
}
use mars.Block.Types.{BlockDevice, neg_isize, wrap_isize, is_negative, is_positive, add_isize}
use mars.Prelude.{◌≤◌, ◌≡◌, refl, arith, Bool-cases, ◌||◌, inl, inr, Bool, false}
use mars.Block.Sharing.{ConsumerHasCounts, exclusives_of}

neg_isize-count :
    (a : ℤ) → IsCount a → (pos_part (neg_isize a) ≡ 0) × (neg_part (neg_isize a) ≡ pos_part a)
unfolding neg_isize wrap_isize ◌-ℤ◌
neg_isize-count a h = ground arith

module _ {D : Type 0} (dev : BlockDevice D) {h h' : HardwareAdapter D} {c : Consumer}
    (hc : HasCounts dev h) (cc : ConsumerHasCounts c) where
  Granted-Move :
      {c' : Consumer} {r w e : ℤ}
      → Granted dev h r w e h'
      → Changed c.read_count r c'.read_count
        × Changed c.write_count w c'.write_count
        × Changed c.exclusive_count e c'.exclusive_count
      → exclusives_of c ≤ pos_part h.exclusive_count
      → Move dev h c h' c'
  Granted-Move g k le = record {
    adapter_counts = omega (arith, g.reads, g.writes, g.exclusives);
    consumer_counts = omega arith;
    reads = omega (arith, g.reads);
    writes = omega (arith, g.writes);
    exclusives = omega (arith, g.exclusives);
    alone = λ free p. g.alone (omega arith);
    shrinks = λ held. omega (arith, g.no_more held);
  }

  SameCounts-Move :
      SameCounts dev h h' → exclusives_of c ≤ pos_part h.exclusive_count → Move dev h c h' c
  SameCounts-Move q le = record {
    adapter_counts = rw (q.reads, q.writes, q.exclusives) hc;
    consumer_counts = cc;
    reads = rw (q.reads) (omega arith);
    writes = rw (q.writes) (omega arith);
    exclusives = rw (q.exclusives) (omega arith);
    alone = λ free p. absurd (omega arith);
    shrinks = λ held. omega arith;
  }

  -- A consumer that goes holds nothing, whether or not the adapter has noticed.
  SameCounts-leave : SameCounts dev h h' → Move dev h c h' attach
  SameCounts-leave q = record {
    adapter_counts = rw (q.reads, q.writes, q.exclusives) hc;
    consumer_counts = omega arith;
    reads = rw (q.reads) (omega arith);
    writes = rw (q.writes) (omega arith);
    exclusives = rw (q.exclusives) (omega arith);
    alone = λ free p. absurd (omega arith);
    shrinks = λ held. omega arith;
  }

no-negative : (a b c : Bool) → (a || b || c) ≡ false → (a ≡ false) × (b ≡ false) × (c ≡ false)
no-negative a b c h = ground arith

module _ {D : Type 0} (dev : BlockDevice D) where
  -- An access that changes nothing, or changes the adapter and the consumer alike.
  pub consumer_access-Move :
      (h : HardwareAdapter D) (c : Consumer) (r w e : ℤ)
      → HasCounts dev h
      → ConsumerHasCounts c
      → IsIsize r × IsIsize w × IsIsize e
      → exclusives_of c ≤ pos_part h.exclusive_count
      → let (result, h', c') = consumer_access (adapter_provider dev) h c r w e in
        Move dev h c h' c'
  unfolding consumer_access
  consumer_access-Move h c r w e hc cc hi le =
      elim (Bool-cases (
        is_negative (add_isize c.read_count r)
        || is_negative (add_isize c.write_count w)
        || is_negative (add_isize c.exclusive_count e))) [
          | inl negative ↦
              rw (negative, consumer_access)
                (SameCounts-Move dev hc cc
                  (record { reads = refl; writes = refl; exclusives = refl }) le)
          | inr good ↦ elim (adapter_access-outcome dev h r w e hc hi) [
            | inl (done, g) ↦
                rw (good, done, consumer_access)
                  (Granted-Move dev hc cc g
                    (let no = no-negative _ _ _ good in
                      (
                        add_isize-Changed c.read_count r cc.0 hi.0 no.0,
                        add_isize-Changed c.write_count w cc.1 hi.1 no.1,
                        add_isize-Changed c.exclusive_count e cc.2 hi.2 no.2,
                      ))
                    le)
            | inr (x, failed, q) ↦
                rw (good, failed, consumer_access) (SameCounts-Move dev hc cc q le)
          ]
        ]

  drop_access-Move :
      (h : HardwareAdapter D) (c : Consumer)
      → HasCounts dev h
      → ConsumerHasCounts c
      → exclusives_of c ≤ pos_part h.exclusive_count
      → Move dev h c
          (adapter_access dev h
            (neg_isize c.read_count)
            (neg_isize c.write_count)
            (neg_isize c.exclusive_count)).1
          attach
  drop_access-Move h c hc cc le =
      let nr = neg_isize-count c.read_count cc.0 in
      let nw = neg_isize-count c.write_count cc.1 in
      let ne = neg_isize-count c.exclusive_count cc.2 in
      elim (adapter_access-outcome dev h (neg_isize c.read_count) (neg_isize c.write_count)
        (neg_isize c.exclusive_count) hc (omega arith)) [
          | inl (done, g) ↦ Granted-Move dev hc cc g (omega arith) le
          | inr (x, failed, q) ↦ SameCounts-leave dev hc cc q
        ]

  pub consumer_drop-Move :
      (h : HardwareAdapter D) (c : Consumer)
      → HasCounts dev h
      → ConsumerHasCounts c
      → (exclusives_of c ≤ pos_part h.exclusive_count)
      → Move dev h c (consumer_drop (adapter_provider dev) h c) attach
  unfolding consumer_drop
  consumer_drop-Move h c hc cc le =
      elim (Bool-cases
        (is_positive c.read_count || is_positive c.write_count || is_positive c.exclusive_count)) [
          | inl holds ↦ rw (holds, consumer_drop) (drop_access-Move h c hc cc le)
          | inr empty ↦
              rw (empty, consumer_drop)
                (SameCounts-leave dev hc cc
                  (record { reads = refl; writes = refl; exclusives = refl }))
        ]
