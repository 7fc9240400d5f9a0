-- ===== src/Pages/Coalesce.antt =====
-- klib/src/pm/page/mod.rs, `free_block_in_zone`: when the merging stops.
use mars.Prelude.{
  ℕ, zero, suc, ◌+◌, ◌^◌, ◌≤◌, ◌<◌, ◌≡◌, inl, inr, true, not, ◌||◌, arith, ltb, leb, ◌==◌,
  Bool-cases, subst, ◌⊎◌, ◌≢◌, sym, ◌∙◌,
}
use mars.Pages.Memory.{
  Zone, PageAllocator, page_address, is_free_byte, order_of, unlink_block, mark, push_block,
  free_byte, fill,
}
use mars.Pages.Buddy.{give_block, buddy, merged, free_block_in_zone}
use mars.Pages.Invariant.{Aligned, Within}
use mars.Pages.Regions.{power-suc}
use mars.Pages.Tiles.{power-positive}
use mars.Pages.Free.{buddies}
use mars.Pages.Steps.{fill_inside, fill_outside}

-- The pages of a block lie in a free block that cannot be merged any further: it has the highest
-- order, or its buddy is not whole in the zone, or the buddy is no free block of its order.
pub record Coalesced (zones : ℕ → Zone) (m : ℕ → ℕ) (z k o : ℕ) : Type 0 where
  pub order : ℕ
  pub head : ℕ
  pub aligned : Aligned order head
  pub holds : (head ≤ k) × (k + 2 ^ o ≤ head + 2 ^ order)
  pub free : (j : ℕ) → Within order head j → m ((zones z).meta_array + j) ≡ free_byte order
  pub alone :
      (order ≡ 10)
      ⊎ (((zones z).total_pages < buddy order head + 2 ^ order)
          ⊎ (m ((zones z).meta_array + buddy order head) ≢ free_byte order))

module _ (z k o : ℕ) (a : PageAllocator) (al : Aligned o k) where
  here-Coalesced :
      (o ≡ 10)
        ⊎ (((a.zones z).total_pages < buddy o k + 2 ^ o)
            ⊎ (a.metadata ((a.zones z).meta_array + buddy o k) ≢ free_byte o))
      → Coalesced a.zones (give_block o z k a).metadata z k o
  unfolding give_block mark push_block
  here-Coalesced stop = record {
    order = o;
    head = k;
    aligned = al;
    holds = (omega arith, omega arith);
    free = λ j w.
        fill_inside (2 ^ o) ((a.zones z).meta_array + k) (free_byte o) a.metadata _ (omega arith)
          (omega arith);
    alone = elim stop [
      | inl top ↦ inl top
      | inr (inl out) ↦ inr (inl out)
      | inr (inr other) ↦ inr (inr (λ e. other (sym (beside) ∙ e)))
    ];
  }
    where
      beside :
          (fill (2 ^ o) ((a.zones z).meta_array + k) (free_byte o) a.metadata)
            ((a.zones z).meta_array + buddy o k)
          ≡ a.metadata ((a.zones z).meta_array + buddy o k)
      beside = elim (buddies o k al).either [
        | inl (b, m) ↦ fill_outside (2 ^ o) _ (free_byte o) a.metadata _ (inr (omega (arith, b)))
        | inr (b, m) ↦
            fill_outside (2 ^ o) _ (free_byte o) a.metadata _
              (inl (omega (arith, b, m, power-positive o)))
      ]

stop_byte :
    (o v : ℕ) → o < 11 → (not (is_free_byte v) || not (order_of v == o)) ≡ true → v ≢ free_byte o
stop_byte o v small stop e = ground arith

-- What holds of the merged block holds of the block.
merged-Coalesced :
    (zones : ℕ → Zone) (m : ℕ → ℕ) (z k o : ℕ)
    → Aligned o k
    → Coalesced zones m z (merged o k) (suc o)
    → Coalesced zones m z k o
merged-Coalesced zones m z k o al c =
    let (low, high) = c.holds in
    record {
      order = c.order;
      head = c.head;
      aligned = c.aligned;
      holds = elim (buddies o k al).either [
        | inl (b, q) ↦ (omega (arith, q, low), omega (arith, q, high, power-suc o))
        | inr (b, q) ↦ (omega (arith, b, q, low), omega (arith, b, q, high, power-suc o))
      ];
      free = c.free;
      alone = c.alone;
    }

-- `free_block_in_zone` merges as long as it can.
pub free_block_in_zone-Coalesced :
    (left z k o : ℕ) (a : PageAllocator)
    → o + left ≡ 10
    → Aligned o k
    → Coalesced a.zones (free_block_in_zone left z k o a).metadata z k o
unfolding free_block_in_zone unlink_block
free_block_in_zone-Coalesced zero z k o a sum al = here-Coalesced z k o a al (inl (omega arith))
free_block_in_zone-Coalesced (suc left) z k o a sum al =
    let total = (a.zones z).total_pages in
    let v = a.metadata ((a.zones z).meta_array + buddy o k) in
    elim (Bool-cases (leb total (buddy o k) || ltb total (buddy o k + 2 ^ o))) [
      | inl outside ↦
          let end : total < buddy o k + 2 ^ o = ground (arith, outside, power-positive o) in
          rw outside (here-Coalesced z k o a al (inr (inl end)))
      | inr inside ↦ elim (Bool-cases (not (is_free_byte v) || not (order_of v == o))) [
        | inl stop ↦
            rw (inside, stop)
              (here-Coalesced z k o a al (inr (inr (stop_byte o v (omega arith) stop))))
        | inr merge ↦
            let next : o + 1 ≡ suc o = omega arith in
            let rest =
              free_block_in_zone left z (merged o k) (o + 1)
                (unlink_block o (page_address a.zones z (buddy o k)) a) in
            rw (inside, merge)
              (merged-Coalesced a.zones rest.metadata z k o al (
                subst (λ n. Coalesced a.zones rest.metadata z (merged o k) n) next
                  (free_block_in_zone-Coalesced left z (merged o k) (o + 1)
                    (unlink_block o (page_address a.zones z (buddy o k)) a) (omega arith)
                    (subst (λ n. Aligned n (merged o k)) (sym next) (buddies o k al).pair))))
      ]
    ]
