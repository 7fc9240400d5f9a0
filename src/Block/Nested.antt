-- ===== src/Block/Nested.antt =====
-- klib/src/block/mod.rs: a partition of a partition.
use mars.Block.Window.{Fits, IsInside, shifted, partition_request-window}
use mars.Block.Nodes.{Partition, partition_provider, partition_request}
use mars.Block.Types.{Provider, IoRequest, is_flush, Reply}
use mars.Prelude.{◌+◌, ◌≡◌, false, arith, inr, inl, ◌∙◌, ap}

module _ {S : Type 0} (p : Provider S) where
  -- The address on the lowest provider of a request to the inner partition.
  abbrev pub bottom : Partition (Partition S) → IoRequest → IoRequest
  bottom q req = record req { lba = q.below.start_lba + q.start_lba + req.lba }

  bottom-eq :
      (q : Partition (Partition S)) (req : IoRequest)
      → is_flush req.cmd ≡ false
      → shifted p q.below (shifted (partition_provider p) q req) ≡ bottom q req
  bottom-eq q req e = ground arith

  -- How the reply of the lowest provider is handed up.
  abbrev handed_up : Partition (Partition S) → Reply (Partition S) → Reply (Partition (Partition S))
  handed_up q reply = (reply.0, reply.1, record q { below = reply.2 })

  -- A request that both consumers and the inner partition admit goes to the lowest provider, with
  -- the two starts added up, and inside the outer partition.
  pub nested_request :
      (q : Partition (Partition S)) (req : IoRequest)
      → Fits p q.below
      → Fits (partition_provider p) q
      → is_flush req.cmd ≡ false
      → IsInside (partition_provider p) q req
      → IsInside p q.below (shifted (partition_provider p) q req)
      → let (result, buf, s) = p.request q.below.below (bottom q req) in
        partition_request (partition_provider p) q req
        ≡ (result, buf, record q { below = record q.below { below = s } })
  nested_request q req outer inner e here there =
      elim (partition_request-window (partition_provider p) q req inner) [
        | inr (bad, other) ↦ absurd (bad here)
        | inl (fits, stays, eq) ↦
            elim (partition_request-window p q.below (shifted (partition_provider p) q req) outer) [
              | inr (bad, other) ↦ absurd (bad there)
              | inl (fits, stays, eq') ↦
                  eq
                  ∙ ap (handed_up q) eq'
                  ∙ ap
                      (λ (r : IoRequest). handed_up q (
                        let (result, buf, s) = p.request q.below.below r in
                        (result, buf, record q.below { below = s })))
                      (bottom-eq q req e)
            ]
      ]
