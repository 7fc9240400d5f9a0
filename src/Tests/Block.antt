-- ===== src/Tests/Block.antt =====
-- Inputs for Block: a device of 100 blocks of 512 bytes whose state counts the flushes and writes.
use mars.Prelude.Family.{update}
use mars.Block.WriteBack.{WrittenBack, adapter_access-WrittenBack}
use mars.Block.Exclusion.{exclusive_access}
use mars.Block.Sharing.{HoldsNothing, Reach, later, start, access}
use mars.Block.Access.{AccessOutcome, adapter_access-outcome}
use mars.Block.Window.{
  Fits, IsInside, new_partition-of_inside, StaysInside, parent_reply, partition_request-window,
}
use mars.Block.Forward.{IsAdmissible, IsRejected, consumer_request-forwards}
use mars.Block.Nodes.{
  Consumer, HardwareAdapter, Partition, partition_request, new_partition, adapter_request,
  adapter_access, consumer_access, adapter_provider, partition_provider, attach, consumer_request,
}
use mars.Prelude.{ℕ, ◌+◌, ◌≡◌, refl, ◌⊎◌, false, List, [], map, arith, ℕ_discrete, replicate}
use mars.Prelude.Int.{pos, negsuc, ◌+ℤ◌}
use mars.Block.Types.{
  BlockDevice, ok, err, default_delete_blocks, IoRequest, write, add_isize, read, out_of_bounds,
  is_flush, wrap_isize, BlockError,
}

abbrev disk : BlockDevice ℕ
disk = record {
  flush_device = λ d. (ok tt, d + 1);
  read_blocks = λ d lba buf. (ok tt, map (λ b. lba) buf, d);
  write_blocks = λ d lba buf. (ok tt, d + 1000);
  delete_blocks = default_delete_blocks;
  device_block_size = λ d. 512;
  device_block_count = λ d. 100;
}

abbrev opened : Consumer
opened = record { read_count = pos 1; write_count = pos 1; exclusive_count = pos 0 }

abbrev adapter : HardwareAdapter ℕ
adapter = record { device = 0; read_count = pos 1; write_count = pos 1; exclusive_count = pos 0 }

abbrev sector : List ℕ
sector = replicate 512 0

-- Blocks 40 to 59 of the adapter.
abbrev part : Partition (HardwareAdapter ℕ)
part = record { parent = opened; start_lba = 40; blocks_held = 20; below = adapter }

-- Blocks 45 to 49 of the adapter.
abbrev inner : Partition (Partition (HardwareAdapter ℕ))
inner = record { parent = opened; start_lba = 5; blocks_held = 5; below = part }

abbrev write_at : ℕ → IoRequest
write_at lba = record { cmd = write sector; lba = lba }

read_through_partition :
    (partition_request (adapter_provider disk) part (record { cmd = read sector; lba = 3 })).1
    ≡ replicate 512 43
unfolding partition_request adapter_request
read_through_partition = refl

write_past_partition :
    (partition_request (adapter_provider disk) part (write_at 20)).0 ≡ err out_of_bounds
unfolding partition_request adapter_request
write_past_partition = refl

consumer_request-forwards_example :
    (IsAdmissible (adapter_provider disk) adapter opened (write_at 99)
      × (consumer_request (adapter_provider disk) adapter opened (write_at 99)
          ≡ adapter_request disk adapter (write_at 99)))
    ⊎ ((¬ IsAdmissible (adapter_provider disk) adapter opened (write_at 99))
        × IsRejected (adapter_provider disk) adapter opened (write_at 99))
consumer_request-forwards_example =
    consumer_request-forwards (adapter_provider disk) adapter opened (write_at 99) (omega arith)

part-Fits : Fits (adapter_provider disk) part
part-Fits = omega arith

inner-Fits : Fits (partition_provider (adapter_provider disk)) inner
inner-Fits = omega arith

new_partition-of_inside_example :
    new_partition (adapter_provider disk) adapter opened 40 20 ≡ ok part
new_partition-of_inside_example =
    new_partition-of_inside (adapter_provider disk) adapter opened 40 20 (omega arith) (omega arith)

partition_request-window_example :
    (IsInside (adapter_provider disk) part (write_at 19)
      × (is_flush (write sector) ≡ false → StaysInside (adapter_provider disk) part (write_at 19))
      × (partition_request (adapter_provider disk) part (write_at 19)
          ≡ parent_reply (adapter_provider disk) part (write_at 19)))
    ⊎ ((¬ IsInside (adapter_provider disk) part (write_at 19))
        × ((e : BlockError) × (partition_request (adapter_provider disk) part (write_at 19)
              ≡ (err e, [], part))))
partition_request-window_example =
    partition_request-window (adapter_provider disk) part (write_at 19) part-Fits

adapter_access-outcome_example :
    AccessOutcome disk adapter
      (pos 0)
      (negsuc 0)
      (pos 0)
      (adapter_access disk adapter (pos 0) (negsuc 0) (pos 0))
adapter_access-outcome_example =
    adapter_access-outcome disk adapter (pos 0) (negsuc 0) (pos 0) (omega arith) (omega arith)

adapter_access-WrittenBack_example :
    WrittenBack disk adapter
      (pos 0)
      (negsuc 0)
      (pos 0)
      (adapter_access disk adapter (pos 0) (negsuc 0) (pos 0))
adapter_access-WrittenBack_example =
    adapter_access-WrittenBack disk adapter (pos 0) (negsuc 0) (pos 0)

-- Two consumers are attached, and the first has taken the adapter exclusively.
taken : Reach disk 2 0 (record {
  adapter = record { device = 0; read_count = pos 0; write_count = pos 1; exclusive_count = pos 1 };
  consumers =
      update
        (λ i. attach)
        0
        (record { read_count = pos 0; write_count = pos 1; exclusive_count = pos 1 });
})
unfolding consumer_access adapter_access add_isize wrap_isize ◌+ℤ◌
taken = later start (access 0 (pos 0) (pos 1) (pos 1) (omega arith) (omega arith))

exclusive_access_example : HoldsNothing attach
unfolding ℕ_discrete
exclusive_access_example =
    exclusive_access disk taken 0 1 (omega arith) (omega arith) (omega arith) (omega arith)
