-- ===== src/Lpi/Marks.antt =====
-- klib/src/interrupt/gicv3/lpi_alloc.rs: `reserve` and `free` by branch.
use mars.Lpi.Valid.{
  IsValid, in_use, Updated, marked, marked-Updated, full-write_bit, word-changed, word_in,
}
use mars.Prelude.{
  ℕ, ◌-◌, ◌/◌, ◌%◌, ◌≤◌, ◌<◌, min, ◌≡◌, refl, ◌∙◌, ◌⊎◌, inl, inr, true, false, arith, dec_lt,
  Bool-cases,
}
use mars.Lpi.{LpiAllocator, reserve, free, contains}

-- Every interrupt is below, above or in the range, and `contains` tells.
contains-cases :
    (a : LpiAllocator) (id : ℕ)
    → (((id < a.base_id) ⊎ (a.max_id < id)) × (contains a id ≡ false))
      ⊎ ((a.base_id ≤ id) × (id ≤ a.max_id) × (contains a id ≡ true))
contains-cases a id = elim (dec_lt id a.base_id) [
  | yes p ↦ inl (inl p, ground arith)
  | no p ↦ elim (dec_lt a.max_id id) [
    | yes q ↦ inl (inr q, ground arith)
    | no q ↦ inr (omega arith, omega arith, ground arith)
  ]
]

module _ (a : LpiAllocator) (id : ℕ) where
  reserve-outside : contains a id ≡ false → reserve a id ≡ (false, a)
  unfolding reserve
  reserve-outside h = rw (h, reserve)

  reserve-taken : contains a id ≡ true → in_use a id ≡ true → reserve a id ≡ (false, a)
  unfolding reserve
  reserve-taken h u = rw (h, u, reserve)

  module _ (v : IsValid a) (above : a.base_id ≤ id) (below : id ≤ a.max_id) where
    reserve-marked :
        contains a id ≡ true
        → in_use a id ≡ false
        → reserve a id ≡ (true, marked v id above below true a.hint)
    unfolding reserve
    reserve-marked h u = rw (h, u, reserve)

    reserve-Updated : Updated a id true (marked v id above below true a.hint)
    reserve-Updated =
        marked-Updated v id above below true a.hint v.hint_in
          (λ j lt. full-write_bit a.bitmap _ _ j (word_in v id above below) (v.full j lt))

    -- The hint of `free`.
    abbrev lowered : ℕ
    lowered = min ((id - a.base_id) / 64) a.hint

    free-marked : contains a id ≡ true → free a id ≡ marked v id above below false lowered
    unfolding free
    free-marked h = ground arith

    free-Updated : Updated a id false (marked v id above below false lowered)
    free-Updated = marked-Updated v id above below false lowered (omega (arith, v.hint_in)) (λ j lt.
        word-changed a.bitmap ((id - a.base_id) / 64) ((id - a.base_id) % 64) j false (omega arith)
        ∙ v.full j (omega arith))

-- On a valid allocator `reserve` refuses an interrupt that is out of range or in use and changes
-- nothing then; any other one it marks, and keeps the allocator valid.
pub reserve_lem :
    (a : LpiAllocator) (id : ℕ)
    → IsValid a
    → (((reserve a id).0 ≡ true)
        × (a.base_id ≤ id)
        × (id ≤ a.max_id)
        × (in_use a id ≡ false)
        × Updated a id true (reserve a id).1)
      ⊎ ((reserve a id ≡ (false, a)) × ((id < a.base_id) ⊎ (a.max_id < id) ⊎ (in_use a id ≡ true)))
reserve_lem a id v = elim (contains-cases a id) [
  | inl (inl p, h) ↦ inr (reserve-outside a id h, inl p)
  | inl (inr p, h) ↦ inr (reserve-outside a id h, inr (inl p))
  | inr (above, below, h) ↦ elim (Bool-cases (in_use a id)) [
    | inl u ↦ inr (reserve-taken a id h u, inr (inr u))
    | inr u ↦
        let e = reserve-marked a id v above below h u in
        inl (rw e refl, above, below, u, rw e (reserve-Updated a id v above below))
  ]
]

-- On a valid allocator `free` changes nothing for an interrupt out of range; any other one it frees,
-- and keeps the allocator valid.
pub free_lem :
    (a : LpiAllocator) (id : ℕ)
    → IsValid a
    → ((a.base_id ≤ id) × (id ≤ a.max_id) × Updated a id false (free a id))
      ⊎ (((id < a.base_id) ⊎ (a.max_id < id)) × (free a id ≡ a))
unfolding free
free_lem a id v = elim (contains-cases a id) [
  | inl (p, h) ↦ inr (p, rw (h, free))
  | inr (above, below, h) ↦
      inl (above, below, rw (free-marked a id v above below h) (free-Updated a id v above below))
]
