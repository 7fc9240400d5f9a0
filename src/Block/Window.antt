-- ===== src/Block/Window.antt =====
-- klib/src/block/mod.rs, `Partition`: a partition is a provider of its own blocks, and its requests
-- stay in its window of the parent.
use mars.Prelude.{
  refl, ℕ, ◌+◌, ◌^◌, ◌<◌, ◌≤◌, ◌≡◌, arith, if◌then◌else◌, false, ◌⊎◌, inr, inl, ◌∙◌, ap, length,
  ◌/◌,
}
use mars.Block.Types.{
  ok, Command, read, write, flush, delete, IoRequest, is_flush, Provider, Reply, command_blocks,
  BlockError, err, read_buffer,
}
use mars.Block.Nodes.{
  Consumer, Partition, new_partition, translate, partition_request, consumer_request,
}
use mars.Block.Checks.{Admits}
use mars.Block.Forward.{Result-cases, IsAdmissible, consumer_request-forwards}

-- The blocks of a command at an address lie on `count` blocks; a flush has none.
abbrev pub LiesIn : ℕ → ℕ → ℕ → Command → Type 0
LiesIn count block_size lba (read buf) = lba + length buf / block_size ≤ count
LiesIn count block_size lba (write buf) = lba + length buf / block_size ≤ count
LiesIn count block_size lba (delete n) = lba + n ≤ count
LiesIn count block_size lba flush = Unit

module _ {S : Type 0} (p : Provider S) where
  -- The blocks of the partition, if it has any, are blocks of the parent, whose count is a `u64`.
  pub record Fits (q : Partition S) : Type 0 where
    pub inside : q.start_lba + q.blocks_held ≤ p.block_count q.below
    pub bounded : p.block_count q.below < 2 ^ 64

  -- A partition that `Partition::new` returns keeps what it was asked for, starts on the state of
  -- its parent, and ends inside the parent.
  pub new_partition-inside :
      (s : S) (c : Consumer) (start count : ℕ) {q : Partition S}
      → new_partition p s c start count ≡ ok q
      → (q ≡ record { parent = c; start_lba = start; blocks_held = count; below = s })
        × (start + count ≤ p.block_count s)
  unfolding new_partition
  new_partition-inside s c start count h = ground arith

  -- `Partition::new` refuses nothing else.
  pub new_partition-of_inside :
      (s : S) (c : Consumer) (start count : ℕ)
      → p.block_count s < 2 ^ 64
      → start + count ≤ p.block_count s
      → new_partition p s c start count
        ≡ ok (record { parent = c; start_lba = start; blocks_held = count; below = s })
  unfolding new_partition
  new_partition-of_inside s c start count u h = ground arith

  module _ (q : Partition S) (req : IoRequest) where
    -- The same command, at the address that it has on the parent; a flush has none.
    abbrev pub shifted : IoRequest
    shifted = if is_flush req.cmd then req else record req { lba = req.lba + q.start_lba }

    -- The blocks of the request lie in the partition, and its consumer of the parent may send the
    -- command.
    abbrev pub IsInside : Type 0
    IsInside =
        LiesIn q.blocks_held (p.block_size q.below) req.lba req.cmd
        × Admits q.parent (p.block_size q.below) (p.block_count q.below) req.lba req.cmd

    -- What the parent's provider answers to the shifted request, in the partition.
    abbrev pub parent_reply : Reply (Partition S)
    parent_reply =
        let (result, buf, s) = p.request q.below shifted in (result, buf, record q { below = s })

  translate-inside :
      (q : Partition S) (lba : ℕ) (cmd : Command)
      → Fits q
      → IsInside q (record { cmd = cmd; lba = lba })
      → (translate p q (record { cmd = cmd; lba = lba })
          ≡ ok (shifted q (record { cmd = cmd; lba = lba })))
        × IsAdmissible p q.below q.parent (shifted q (record { cmd = cmd; lba = lba }))
  unfolding translate
  translate-inside q lba (read buf) f h = ground arith
  translate-inside q lba (write buf) f h = ground arith
  translate-inside q lba (delete n) f h = ground arith
  translate-inside q lba flush f h = ground arith

  inside-of-translate :
      (q : Partition S) (lba : ℕ) (cmd : Command) (r : IoRequest)
      → Fits q
      → translate p q (record { cmd = cmd; lba = lba }) ≡ ok r
      → (r ≡ shifted q (record { cmd = cmd; lba = lba }))
        × (IsAdmissible p q.below q.parent r → IsInside q (record { cmd = cmd; lba = lba }))
  unfolding translate
  inside-of-translate q lba (read buf) r f h = ground arith
  inside-of-translate q lba (write buf) r f h = ground arith
  inside-of-translate q lba (delete n) r f h = ground arith
  inside-of-translate q lba flush r f h = ground arith

  -- The blocks of a shifted request lie between the first and the last block of the partition.
  abbrev pub StaysInside : Partition S → IoRequest → Type 0
  StaysInside q req =
      (q.start_lba ≤ (shifted q req).lba)
      × ((shifted q req).lba + command_blocks req.cmd (p.block_size q.below)
          ≤ q.start_lba + q.blocks_held)

  StaysInside-of_inside :
      (q : Partition S) (lba : ℕ) (cmd : Command)
      → IsInside q (record { cmd = cmd; lba = lba })
      → is_flush cmd ≡ false
      → StaysInside q (record { cmd = cmd; lba = lba })
  StaysInside-of_inside q lba (read buf) h e = ground arith
  StaysInside-of_inside q lba (write buf) h e = ground arith
  StaysInside-of_inside q lba (delete n) h e = ground arith
  StaysInside-of_inside q lba flush h e = cc

  -- How the reply of the parent's consumer becomes the partition's.
  abbrev in_partition : Partition S → Reply S → Reply (Partition S)
  in_partition q reply = (reply.0, reply.1, record q { below = reply.2 })

  partition_request-translated :
      (q : Partition S) (req : IoRequest) {r : IoRequest} {reply : Reply S}
      → translate p q req ≡ ok r
      → consumer_request p q.below q.parent r ≡ reply
      → partition_request p q req ≡ in_partition q reply
  unfolding partition_request
  partition_request-translated q req done called =
      rw (done, partition_request) (ap (in_partition q) called)

  cmd-shifted : (q : Partition S) (req : IoRequest) → (shifted q req).cmd ≡ req.cmd
  cmd-shifted q req = ground arith

  -- Of a partition that ends inside its parent, whose block count is a `u64`: when the blocks of a
  -- request lie in the partition and its consumer may send the command to the parent (whole blocks, a
  -- parent that is not empty, opened for it), the reply is the parent provider's to the shifted request,
  -- which stays inside the partition's blocks unless it is a flush. Any other request gets an error,
  -- with the read buffer, the partition and the parent as they were. A partition of no blocks is one of
  -- these: requests of no blocks at its start lie in it.
  pub partition_request-window :
      (q : Partition S) (req : IoRequest)
      → Fits q
      → (IsInside q req
          × (is_flush req.cmd ≡ false → StaysInside q req)
          × (partition_request p q req ≡ parent_reply q req))
        ⊎ ((¬ IsInside q req)
            × ((e : BlockError) × (partition_request p q req ≡ (err e, read_buffer req.cmd, q))))
  unfolding partition_request
  partition_request-window q req f = elim (Result-cases (translate p q req)) [
    | inr (e, failed) ↦ inr (
      λ h. cc (failed, (translate-inside q req.lba req.cmd f h).0),
      (e, rw (failed, partition_request) refl),
    )
    | inl (r, done) ↦
        (let r_eq = inside-of-translate q req.lba req.cmd r f done in
          elim (consumer_request-forwards p q.below q.parent r f.bounded) [
            | inl (adm, called) ↦ inl (
              r_eq.1 adm,
              StaysInside-of_inside q req.lba req.cmd (r_eq.1 adm),
              partition_request-translated q req done called
                  ∙ ap (λ x. in_partition q (p.request q.below x)) r_eq.0,
            )
            | inr (bad, (e, failed)) ↦ inr (
              λ h. bad (rw (r_eq.0) (translate-inside q req.lba req.cmd f h).1),
              (
                e,
                partition_request-translated q req done failed
                    ∙ rw (ap (λ (x : IoRequest). x.cmd) r_eq.0 ∙ cmd-shifted q req) refl,
              ),
            )
          ])
  ]
