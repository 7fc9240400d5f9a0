-- ===== src/Block/Exclusion.antt =====
-- klib/src/block/mod.rs: exclusive access excludes, whatever the consumers of an adapter call.
use mars.Block.Calls.{consumer_access-Move, consumer_drop-Move}
use mars.Block.Forward.{Result-cases}
use mars.Block.Moves.{Move-Inv}
use mars.Prelude.Int.{pos_part}
use mars.Prelude.Family.{weight-le-sum_below, sum_below-zero}
use mars.Block.Access.{SameCounts}
use mars.Block.Nodes.{
  HardwareAdapter, Consumer, adapter_provider, attach, adapter_request, consumer_request,
  new_adapter, check_request,
}
use mars.Block.Types.{BlockDevice, IoRequest, Command, read, write, delete, flush}
use mars.Prelude.{ℕ, ◌<◌, ◌≤◌, ◌≢◌, refl, arith, inl, inr}
use mars.Block.Sharing.{
  System, Inv, exclusives_of, HoldsNothing, reads_of, writes_of, Step, access, request, leave,
  Reach, later, start,
}

module _ {D : Type 0} (dev : BlockDevice D) where
  perform-SameCounts :
      (h : HardwareAdapter D) (lba : ℕ) (cmd : Command)
      → SameCounts dev h (adapter_request dev h (record { cmd = cmd; lba = lba })).2
  unfolding adapter_request
  perform-SameCounts h lba (read buf) = record { reads = refl; writes = refl; exclusives = refl }
  perform-SameCounts h lba (write buf) = record { reads = refl; writes = refl; exclusives = refl }
  perform-SameCounts h lba flush = record { reads = refl; writes = refl; exclusives = refl }
  perform-SameCounts h lba (delete n) = record { reads = refl; writes = refl; exclusives = refl }

  consumer_request-SameCounts :
      (h : HardwareAdapter D) (c : Consumer) (req : IoRequest)
      → SameCounts dev h (consumer_request (adapter_provider dev) h c req).2
  unfolding consumer_request
  consumer_request-SameCounts h c req =
      elim (Result-cases
        (check_request c (dev.device_block_size h.device) (dev.device_block_count h.device) req)) [
          | inl (tt, e) ↦ rw (e, consumer_request) (perform-SameCounts h req.lba req.cmd)
          | inr (x, e) ↦
              rw (e, consumer_request) (record { reads = refl; writes = refl; exclusives = refl })
        ]

  SameCounts-Inv :
      {n : ℕ} {s : System D} {h : HardwareAdapter D}
      → SameCounts dev s.adapter h
      → Inv dev n s
      → Inv dev n (record s { adapter = h })
  SameCounts-Inv q inv = record {
    adapter_counts = rw (q.reads, q.writes, q.exclusives) inv.adapter_counts;
    consumer_counts = inv.consumer_counts;
    reads_le = rw (q.reads) inv.reads_le;
    writes_le = rw (q.writes) inv.writes_le;
    exclusives_le = rw (q.exclusives) inv.exclusives_le;
    exclusion = inv.exclusion;
  }

  held-le :
      {n : ℕ} {s : System D} (i : ℕ)
      → Inv dev n s
      → i < n
      → exclusives_of (s.consumers i) ≤ pos_part s.adapter.exclusive_count
  held-le {n} {s} i inv lt =
      omega (arith, inv.exclusives_le, weight-le-sum_below exclusives_of n s.consumers i lt)

  -- Every call of a consumer, successful or not, keeps the invariant.
  pub Step-Inv : {n : ℕ} {s t : System D} → Step dev n s t → Inv dev n s → Inv dev n t
  Step-Inv {n} {s} (access i r w e lt ranges) inv = Move-Inv dev inv i lt (
      consumer_access-Move dev s.adapter (s.consumers i) r w e inv.adapter_counts
        (inv.consumer_counts i) ranges (held-le i inv lt))
  Step-Inv {n} {s} (request i req lt) inv =
      SameCounts-Inv (consumer_request-SameCounts s.adapter (s.consumers i) req) inv
  Step-Inv {n} {s} (leave i lt) inv = Move-Inv dev inv i lt (
      consumer_drop-Move dev s.adapter (s.consumers i) inv.adapter_counts (inv.consumer_counts i)
        (held-le i inv lt))

  start-Inv :
      (n : ℕ) (d : D) → Inv dev n (record { adapter = new_adapter dev d; consumers = λ i. attach })
  start-Inv n d = record {
    adapter_counts = omega arith;
    consumer_counts = λ i. omega arith;
    reads_le = rw (sum_below-zero reads_of n (λ i. attach) (λ i. refl)) (omega arith);
    writes_le = rw (sum_below-zero writes_of n (λ i. attach) (λ i. refl)) (omega arith);
    exclusives_le = rw (sum_below-zero exclusives_of n (λ i. attach) (λ i. refl)) (omega arith);
    exclusion = λ i j hi hj ne p. absurd (omega arith);
  }

  pub Reach-Inv : {n : ℕ} {d : D} {s : System D} → Reach dev n d s → Inv dev n s
  Reach-Inv {n} {d} start = start-Inv n d
  Reach-Inv (later r st) = Step-Inv st (Reach-Inv r)

  -- After any sequence of calls of the `n` consumers of an adapter, while one of them holds it
  -- exclusively, no other one holds it for reading, for writing or exclusively.
  pub exclusive_access :
      {n : ℕ} {d : D} {s : System D}
      → Reach dev n d s
      → (i j : ℕ) → i < n
      → j < n
      → i ≢ j
      → 0 < exclusives_of (s.consumers i)
      → HoldsNothing (s.consumers j)
  exclusive_access r = (Reach-Inv r).exclusion
