-- ===== src/Pages/Merge.antt =====
-- klib/src/pm/page/mod.rs: `free_block_in_zone`, with the merges that it makes.
use mars.Prelude.{
  ℕ, subst, zero, suc, ◌+◌, ◌^◌, ◌≤◌, ◌<◌, ◌≡◌, sym, ap, inl, inr, Bool, true, false, not, ◌||◌,
  arith, ltb, leb, ◌==◌, Bool-cases, refl,
}
use mars.Pages.Memory.{
  PageAllocator, page_address, is_free_byte, order_of, unlink_block, mark, push_block,
}
use mars.Pages.Buddy.{give_block, buddy, merged, free_block_in_zone}
use mars.Pages.Invariant.{Aligned, Apart, value}
use mars.Pages.Regions.{Span, Nothing, InvOf, power-suc}
use mars.Pages.Split.{give_block-zones}
use mars.Pages.Free.{Freed, here-Inv, here-Freed, merge-Inv, buddy_free, block_and_buddy, buddies}

-- The pages of a block have been freed.
pub record Given (IsZone : ℕ → Type 0) (z k o : ℕ) (a a' : PageAllocator) : Type 0 where
  pub inv : InvOf IsZone Nothing a'
  pub same_zones : a'.zones ≡ a.zones
  pub same_head : a'.zone_head ≡ a.zone_head
  pub freed : Freed a.zones IsZone a.metadata a'.metadata z k o

guard_false : (x y : Bool) → (x || y) ≡ false → (x ≡ false) × (y ≡ false)
guard_false x y e = ground arith

module _ {IsZone : ℕ → Type 0} (z k o : ℕ) (a : PageAllocator) (apart : Apart a.zones IsZone)
    (inv : InvOf IsZone (Span z k (k + 2 ^ o)) a) (zone : IsZone z) (small : o < 11)
    (al : Aligned o k) (fits : k + 2 ^ o ≤ (a.zones z).total_pages) where
  here-Given : Given IsZone z k o a (give_block o z k a)
  unfolding give_block mark push_block
  here-Given = record {
    inv = here-Inv o z k a apart inv zone small al fits;
    same_zones = give_block-zones o z k a;
    same_head = refl;
    freed = here-Freed o z k a apart inv zone small al fits;
  }

  -- What holds of the merged block holds of the block, since the buddy was free.
  merged-Given :
      (inside : buddy o k + 2 ^ o ≤ (a.zones z).total_pages)
      → is_free_byte (value a.zones IsZone a.metadata z (buddy o k)) ≡ true
      → order_of (value a.zones IsZone a.metadata z (buddy o k)) ≡ o
      → (a' : PageAllocator)
      → Given IsZone z
          (merged o k)
          (suc o)
          (unlink_block o (page_address a.zones z (buddy o k)) a)
          a'
      → Given IsZone z k o a a'
  unfolding unlink_block
  merged-Given inside is_free its_order a' g = record {
    inv = g.inv;
    same_zones = g.same_zones;
    same_head = g.same_head;
    freed = record {
      free = λ j w. g.freed.free j (
          (block_and_buddy o z k a apart inv zone small al fits inside is_free its_order j).0
            (inl w));
      keeps = λ z' j page used out. g.freed.keeps z' j page used λ (s, w).
          elim ((block_and_buddy o z k a apart inv zone small al fits inside is_free its_order j).1
            w) [
              | inl x ↦ out (s, x)
              | inr x ↦ absurd (
                  omega (
                    arith,
                    used,
                    buddy_free o z k a apart inv zone small al fits inside is_free its_order j x,
                    ap (λ y. value a.zones IsZone a.metadata y j) s,
                  ))
            ];
      stays = λ z' j page free. g.freed.stays z' j page free;
    };
  }

abbrev without_it : ℕ → ℕ → ℕ → PageAllocator → PageAllocator
without_it o z k a = unlink_block o (page_address a.zones z (buddy o k)) a

without_it-Apart :
    {IsZone : ℕ → Type 0} (o z k : ℕ) (a : PageAllocator)
    → Apart a.zones IsZone
    → Apart (without_it o z k a).zones IsZone
unfolding unlink_block
without_it-Apart o z k a apart = apart

without_it-fits :
    (o z k : ℕ) (a : PageAllocator) {n : ℕ}
    → n ≤ (a.zones z).total_pages
    → n ≤ ((without_it o z k a).zones z).total_pages
unfolding unlink_block
without_it-fits o z k a le = le

merged_fits :
    (o k : ℕ) {total : ℕ}
    → Aligned o k
    → k + 2 ^ o ≤ total
    → buddy o k + 2 ^ o ≤ total
    → merged o k + 2 ^ suc o ≤ total
merged_fits o k al fits fits' = elim (buddies o k al).either [
  | inl (b, m) ↦ omega (arith, m, b, fits', power-suc o)
  | inr (b, m) ↦ omega (arith, m, b, fits, power-suc o)
]

-- `free_block_in_zone` frees the pages of the block that it is given.
pub free_block_in_zone-Given :
    {IsZone : ℕ → Type 0} (left z k o : ℕ) (a : PageAllocator)
    → Apart a.zones IsZone
    → InvOf IsZone (Span z k (k + 2 ^ o)) a
    → IsZone z
    → o + left ≡ 10
    → Aligned o k
    → k + 2 ^ o ≤ (a.zones z).total_pages
    → Given IsZone z k o a (free_block_in_zone left z k o a)
unfolding free_block_in_zone
free_block_in_zone-Given zero z k o a apart inv zone sum al fits =
    here-Given z k o a apart inv zone (omega arith) al fits
free_block_in_zone-Given {IsZone} (suc left) z k o a apart inv zone sum al fits =
    let here = here-Given z k o a apart inv zone (omega arith) al fits in
    let total = (a.zones z).total_pages in
    let v = value a.zones IsZone a.metadata z (buddy o k) in
    elim (Bool-cases (leb total (buddy o k) || ltb total (buddy o k + 2 ^ o))) [
      | inl outside ↦ rw outside here
      | inr inside ↦ elim (Bool-cases (not (is_free_byte v) || not (order_of v == o))) [
        | inl stop ↦ rw (inside, stop) here
        | inr merge ↦
            let fits' : buddy o k + 2 ^ o ≤ total = ground (arith, inside) in
            let (in_use, same) = guard_false (not (is_free_byte v)) (not (order_of v == o)) merge in
            let is_free : is_free_byte v ≡ true = ground (arith, in_use) in
            let its_order : order_of v ≡ o = ground (arith, same) in
            let next : suc o ≡ o + 1 = omega arith in
            let b = buddies o k al in
            let rest = free_block_in_zone left z (merged o k) (o + 1) (without_it o z k a) in
            let inv' =
              merge-Inv o z k a apart inv zone (omega arith) al fits fits' is_free its_order in
            let bigger : Given IsZone z (merged o k) (o + 1) (without_it o z k a) rest =
              free_block_in_zone-Given left z (merged o k) (o + 1) (without_it o z k a)
                (without_it-Apart o z k a apart)
                (subst
                  (λ n.
                    InvOf IsZone (Span z (merged o k) (merged o k + 2 ^ n)) (without_it o z k a))
                  next inv')
                zone (omega arith) (subst (λ n. Aligned n (merged o k)) next b.pair)
                (without_it-fits o z k a
                  (omega (arith, merged_fits o k al fits fits', ap (λ n. 2 ^ n) next))) in
            rw (inside, merge)
              (merged-Given z k o a apart inv zone (omega arith) al fits fits' is_free its_order
                rest
                (subst (λ n. Given IsZone z (merged o k) n (without_it o z k a) rest) (sym next)
                  bigger))
      ]
    ]
