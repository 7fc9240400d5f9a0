-- ===== src/Block/Forward.antt =====
-- klib/src/block/mod.rs, `Consumer::request`: exactly the admissible requests reach the provider.
use mars.Prelude.{◌^◌, ◌<◌, ◌≡◌, ◌⊎◌, refl, inl, inr}
use mars.Block.Types.{Result, ok, err, BlockError, IoRequest, read_buffer, Provider}
use mars.Block.Nodes.{Consumer, check_request, consumer_request}
use mars.Block.Checks.{Admits, check_request-of-Admits, Admits-of-check_request}

pub Result-cases {ℓ} :
    {A : Type ℓ} (r : Result A) → ((a : A) × (r ≡ ok a)) ⊎ ((e : BlockError) × (r ≡ err e))
Result-cases (ok a) = inl (a, refl)
Result-cases (err e) = inr (e, refl)

module _ {S : Type 0} (p : Provider S) (s : S) (c : Consumer) (req : IoRequest) where
  abbrev pub IsAdmissible : Type 0
  IsAdmissible = Admits c (p.block_size s) (p.block_count s) req.lba req.cmd

  -- The reply to a request that stops at the consumer: an error, and nothing has changed.
  abbrev pub IsRejected : Type 0
  IsRejected = (e : BlockError) × (consumer_request p s c req ≡ (err e, read_buffer req.cmd, s))

  -- A request of a consumer, on a provider whose block count is a `u64`, is either admissible, and
  -- then the reply is the provider's own, or not admissible, and then the reply is an error, the
  -- read buffer is as it was, and the provider has not been called.
  pub consumer_request-forwards :
      p.block_count s < 2 ^ 64
      → (IsAdmissible × (consumer_request p s c req ≡ p.request s req))
        ⊎ ((¬ IsAdmissible) × IsRejected)
  unfolding consumer_request
  consumer_request-forwards u =
      elim (Result-cases (check_request c (p.block_size s) (p.block_count s) req)) [
        | inl (tt, passed) ↦ inl (
          Admits-of-check_request c _ _ req.lba req.cmd passed,
          rw (passed, consumer_request) refl,
        )
        | inr (e, failed) ↦ inr (
          λ h. cc (failed, check_request-of-Admits c _ _ req.lba req.cmd u h),
          (e, rw (failed, consumer_request) refl),
        )
      ]
