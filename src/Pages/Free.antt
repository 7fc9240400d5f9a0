-- ===== src/Pages/Free.antt =====
-- klib/src/pm/page/mod.rs: what `free_block_in_zone` does to the pages that it is given.
use mars.Prelude.{
  ℕ, subst, suc, ◌+◌, ◌-◌, ◌*◌, ◌/◌, ◌%◌, ◌^◌, ◌≤◌, ◌<◌, ◌≡◌, refl, sym, ap, ◌∙◌, ◌↔◌, ◌⊎◌, inl,
  inr, true, false, arith, dec_lt, ℕ_discrete, ◌==◌,
}
use native.Mathlib.Nat.{mul-div_cancel}
use mars.Pages.Memory.{
  Zone, PageAllocator, page_address, free_byte, is_free_byte, order_of, unlink_block,
}
use mars.Pages.Buddy.{give_block, buddy, merged}
use mars.Pages.Invariant.{Aligned, Within, InBlock, Page, Apart, value, FreeHead}
use mars.Pages.Tiles.{power-positive, FreeHead-Whole}
use mars.Pages.Unlink.{unlink-Inv}
use mars.Pages.Steps.{unlink_block-Unlinked}
use mars.Pages.Settle.{Block, dec_InBlock}
use mars.Pages.Regions.{Span, Nothing, InvOf, power-suc, Inv-iff, give_block-Inv}
use mars.Pages.Split.{give_block-Frees}

-- Where the buddy of an aligned block is, and the block that they make.
pub record Buddies (o k : ℕ) : Type 0 where
  pub aligned : Aligned o (buddy o k)
  pub pair : Aligned (suc o) (merged o k)
  pub either :
      ((buddy o k ≡ k + 2 ^ o) × (merged o k ≡ k))
      ⊎ ((k ≡ buddy o k + 2 ^ o) × (merged o k ≡ buddy o k))

even_multiple : (h q : ℕ) → 2 * h * q ≡ h * (2 * q)
even_multiple h q = grind arith

next_multiple : (c q : ℕ) → (c + 1) * q ≡ c * q + q
next_multiple c q = grind arith

pub buddies : (o k : ℕ) → Aligned o k → Buddies o k
buddies o k (c, e) =
    let q = 2 ^ o in
    let h = c / 2 in
    let quotient : k / 2 ^ o ≡ c = ap (λ x. x / 2 ^ o) e ∙ mul-div_cancel c (power-positive o) in
    let doubled : 2 * h * q ≡ h * 2 ^ suc o =
      even_multiple h q ∙ ap (λ x. h * x) (sym (power-suc o)) in
    elim (ℕ_discrete (c % 2) 0) [
      | yes even ↦
          let bit : (k / 2 ^ o % 2 == 0) ≡ true = ap (λ n. n % 2 == 0) quotient ∙ ground arith in
          let half : c ≡ 2 * h = omega arith in
          let buddy_at : buddy o k ≡ k + q = rw bit refl in
          let merged_at : merged o k ≡ k = rw bit refl in
          record {
            aligned =
                subst (λ x. Aligned o x) (sym buddy_at)
                  (c + 1, omega (arith, e, next_multiple c q));
            pair =
                subst (λ x. Aligned (suc o) x) (sym merged_at)
                  (h, e ∙ ap (λ x. x * q) half ∙ doubled);
            either = inl (buddy_at, merged_at);
          }
      | no odd ↦
          let bit : (k / 2 ^ o % 2 == 0) ≡ false = ap (λ n. n % 2 == 0) quotient ∙ ground arith in
          let half : c ≡ 2 * h + 1 = omega arith in
          let split : k ≡ 2 * h * q + q = e ∙ ap (λ x. x * q) half ∙ next_multiple (2 * h) q in
          let buddy_at : buddy o k ≡ k - q = rw bit refl in
          let merged_at : merged o k ≡ k - q = rw bit refl in
          record {
            aligned = subst (λ x. Aligned o x) (sym buddy_at) (2 * h, omega (arith, split));
            pair =
                subst (λ x. Aligned (suc o) x) (sym merged_at) (h, omega (arith, split, doubled));
            either = inr (omega (arith, split, buddy_at), merged_at ∙ sym buddy_at);
          }
    ]

-- The pages of a block are free in `m'`. Used pages beside it have the bytes that they have in `m`,
-- and free ones are free.
pub record Freed (zones : ℕ → Zone) (IsZone : ℕ → Type 0) (m m' : ℕ → ℕ) (z k o : ℕ) : Type 0 where
  pub free : (j : ℕ) → Within o k j → 128 ≤ value zones IsZone m' z j
  pub keeps :
      (z' j : ℕ)
      → Page zones IsZone z' j
      → value zones IsZone m z' j < 128
      → ¬ InBlock z k o z' j
      → value zones IsZone m' z' j ≡ value zones IsZone m z' j
  pub stays :
      (z' j : ℕ)
      → Page zones IsZone z' j
      → 128 ≤ value zones IsZone m z' j
      → 128 ≤ value zones IsZone m' z' j

module _ {IsZone : ℕ → Type 0} (o z k : ℕ) (a : PageAllocator) (apart : Apart a.zones IsZone)
    (inv : InvOf IsZone (Span z k (k + 2 ^ o)) a) (zone : IsZone z) (small : o < 11)
    (al : Aligned o k) (fits : k + 2 ^ o ≤ (a.zones z).total_pages) where
  block : Block a.zones IsZone z k o (free_byte o)
  block = record { zone_ok = zone; small = small; aligned = al; fits = fits; kind = inr refl }

  pub here-Inv : InvOf IsZone Nothing (give_block o z k a)
  here-Inv =
      give_block-Inv o z k a apart inv
        (record {
          sub = λ z' j n. absurd n;
          rest = λ z' j s out. out s;
          out = λ z' j b n. n;
          was = λ j w. (refl, w);
        })
        block

  pub here-Freed : Freed a.zones IsZone a.metadata (give_block o z k a).metadata z k o
  here-Freed =
      let f = give_block-Frees o z k a apart block in
      record {
        free = λ j w. f.free j w.0 w.1;
        keeps = λ z' j page lt out. f.same z' j page out;
        stays = λ z' j page ge. elim (dec_InBlock z k o z' j) [
          | yes (s, w) ↦
              subst (λ y. 128 ≤ value a.zones IsZone (give_block o z k a).metadata y j) (sym s)
                (f.free j w.0 w.1)
          | no out ↦ subst (λ x. 128 ≤ x) (sym (f.same z' j page out)) ge
        ];
      }

  module _ (inside : buddy o k + 2 ^ o ≤ (a.zones z).total_pages)
      (is_free : is_free_byte (value a.zones IsZone a.metadata z (buddy o k)) ≡ true)
      (its_order : order_of (value a.zones IsZone a.metadata z (buddy o k)) ≡ o) where
    abbrev other : ℕ
    other = buddy o k

    page : Page a.zones IsZone z other
    page = (zone, omega (arith, inside, power-positive o))

    outside : ¬ Span z k (k + 2 ^ o) z other
    outside (_, (ge, lt)) = let b = buddies o k al in ground (arith, b.either, power-positive o)

    -- The buddy is a free block of the same order.
    free_buddy : FreeHead a.zones IsZone (Span z k (k + 2 ^ o)) a.metadata o z other
    free_buddy =
        let tile = inv.tiles z other page outside in
        record {
          page = page;
          settled = outside;
          marked = ground (arith, tile.whole.kind, tile.whole.small, is_free, its_order);
          aligned = (buddies o k al).aligned;
        }

    abbrev without_buddy : PageAllocator
    without_buddy = unlink_block o (page_address a.zones z other) a

    pub block_and_buddy : (j : ℕ) → Within o k j ⊎ Within o other j ↔ Within (suc o) (merged o k) j
    block_and_buddy j =
        let q2 : 2 ^ suc o ≡ 2 * 2 ^ o = power-suc o in
        elim (buddies o k al).either [
          | inl (b, m) ↦ (
            λ s. elim s [
              | inl w ↦ (omega (arith, w.0, m), omega (arith, w.1, m, q2))
              | inr w ↦ (omega (arith, w.0, m, b), omega (arith, w.1, m, b, q2))
            ],
            λ w. elim (dec_lt j (k + 2 ^ o)) [
              | yes lt ↦ inl (omega (arith, w.0, m), lt)
              | no ge ↦ inr (omega (arith, b, ge), omega (arith, w.1, m, b, q2))
            ],
          )
          | inr (b, m) ↦ (
            λ s. elim s [
              | inl w ↦ (omega (arith, w.0, m, b), omega (arith, w.1, m, b, q2))
              | inr w ↦ (omega (arith, w.0, m), omega (arith, w.1, m, q2))
            ],
            λ w. elim (dec_lt j k) [
              | yes lt ↦ inr (omega (arith, w.0, m), omega (arith, lt, b))
              | no ge ↦ inl (omega (arith, ge), omega (arith, w.1, m, b, q2))
            ],
          )
        ]

    pub merge-Inv : InvOf IsZone (Span z (merged o k) (merged o k + 2 ^ suc o)) without_buddy
    unfolding unlink_block
    merge-Inv =
        Inv-iff
          (λ z' j p. elim p [
            | inl (s, w) ↦ (s, (block_and_buddy j).0 (inl w))
            | inr (s, w) ↦ (s, (block_and_buddy j).0 (inr w))
          ])
          (λ z' j (s, w). elim ((block_and_buddy j).1 w) [
            | inl x ↦ inl (s, x)
            | inr x ↦ inr (s, x)
          ])
          (unlink-Inv apart inv o z other free_buddy
            (unlink_block-Unlinked o (page_address a.zones z other) a))

    pub buddy_free : (j : ℕ) → Within o other j → 128 ≤ value a.zones IsZone a.metadata z j
    buddy_free j w =
        let whole = FreeHead-Whole o z other free_buddy (inv.tiles z other page outside) in
        omega (arith, (whole.pages j w).0)
