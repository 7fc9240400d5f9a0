-- ===== src/Pages/Split.antt =====
-- klib/src/pm/page/mod.rs: the loop of `alloc_pages` that gives back what is too much of a block.
use mars.Prelude.{
  ℕ, subst, zero, suc, ◌+◌, ◌*◌, ◌^◌, ◌≤◌, ◌<◌, ◌≡◌, refl, sym, ap, ◌∙◌, inr, arith, dec_lt,
}
use native.Mathlib.Nat.{pow-le-pow_right}
use mars.Pages.Memory.{Zone, PageAllocator, free_byte, mark, push_block}
use mars.Pages.Buddy.{give_block, split}
use mars.Pages.Invariant.{Aligned, Page, Apart, value}
use mars.Pages.Settle.{Without, Block}
use mars.Pages.Regions.{Span, InvOf, power-suc, fill-Marked, give_block-Inv}

-- A block of order `o + 1` is two of order `o`, one at each half.
pub Aligned-low : (o k : ℕ) → Aligned (suc o) k → Aligned o k
Aligned-low o k (c, e) = (2 * c, e ∙ ap (λ q. c * q) (power-suc o) ∙ doubled c (2 ^ o))
  where
    doubled : (c q : ℕ) → c * (2 * q) ≡ 2 * c * q
    doubled c q = grind arith

pub Aligned-weaken : (d t k : ℕ) → Aligned (t + d) k → Aligned t k
Aligned-weaken zero t k al = let same : t + 0 ≡ t = omega arith in subst (λ o. Aligned o k) same al
Aligned-weaken (suc d) t k al =
    let next : t + suc d ≡ suc (t + d) = omega arith in
    Aligned-weaken d t k (Aligned-low (t + d) k (subst (λ o. Aligned o k) next al))

pub Aligned-high : (o k : ℕ) → Aligned (suc o) k → Aligned o (k + 2 ^ o)
Aligned-high o k (c, e) =
    (2 * c + 1, ap (λ x. x + 2 ^ o) e ∙ ap (λ q. c * q + 2 ^ o) (power-suc o) ∙ odd c (2 ^ o))
  where
    odd : (c q : ℕ) → c * (2 * q) + q ≡ (2 * c + 1) * q
    odd c q = grind arith

-- The last block of a span.
pub Span-last :
    (z lo k o hi : ℕ) → lo ≤ k → k + 2 ^ o ≡ hi → Without (Span z lo hi) (Span z lo k) z k o
Span-last z lo k o hi le e = record {
  sub = λ z' j (same, (ge, lt)). (same, (ge, omega arith));
  rest = λ z' j (same, (ge, lt)) out. elim (dec_lt j k) [
    | yes below ↦ (same, (ge, below))
    | no above ↦ absurd (out (same, (omega arith, omega arith)))
  ];
  out = λ z' j (same, (ge, lt)) (_, (ge', lt')). absurd (omega arith);
  was = λ j (ge, lt). (refl, (omega arith, omega arith));
}

-- The first block of a span.
pub Span-first :
    (z k o lo hi : ℕ) → k + 2 ^ o ≡ lo → lo ≤ hi → Without (Span z k hi) (Span z lo hi) z k o
Span-first z k o lo hi e le = record {
  sub = λ z' j (same, (ge, lt)). (same, (omega (arith, e), lt));
  rest = λ z' j (same, (ge, lt)) out. elim (dec_lt j lo) [
    | yes below ↦ absurd (out (same, (ge, omega arith)))
    | no above ↦ (same, (omega arith, lt))
  ];
  out = λ z' j (same, (ge, lt)) (_, (ge', lt')). absurd (omega arith);
  was = λ j (ge, lt). (refl, (ge, omega arith));
}

-- In zones `zones`, the pages of a span are free in `m'`, and the bytes of the others are as in `m`.
pub record Frees (zones : ℕ → Zone) (IsZone : ℕ → Type 0) (m m' : ℕ → ℕ) (z lo hi : ℕ)
    : Type 0 where
  pub free : (j : ℕ) → lo ≤ j → j < hi → 128 ≤ value zones IsZone m' z j
  pub same :
      (z' j : ℕ)
      → Page zones IsZone z' j
      → ¬ Span z lo hi z' j
      → value zones IsZone m' z' j ≡ value zones IsZone m z' j

pub give_block-Frees :
    {IsZone : ℕ → Type 0} (o z k : ℕ) (a : PageAllocator)
    → Apart a.zones IsZone
    → Block a.zones IsZone z k o (free_byte o)
    → Frees a.zones IsZone a.metadata (give_block o z k a).metadata z k (k + 2 ^ o)
unfolding give_block mark push_block
give_block-Frees o z k a apart block =
    let marked = fill-Marked apart a.metadata z k o _ (free_byte o) block in
    record {
      free = λ j ge lt. omega (arith, marked.inside j (ge, lt));
      same = λ z' j page out. marked.outside z' j page out;
    }

pub give_block-zones : (o z k : ℕ) (a : PageAllocator) → (give_block o z k a).zones ≡ a.zones
unfolding give_block mark push_block
give_block-zones o z k a = refl

-- The loop gives back all of a block of order `target + left` but its first `2 ^ target` pages.
pub split-Inv :
    {IsZone : ℕ → Type 0} (left target z k : ℕ) (a : PageAllocator)
    → Apart a.zones IsZone
    → IsZone z
    → target + left < 11
    → Aligned (target + left) k
    → k + 2 ^ (target + left) ≤ (a.zones z).total_pages
    → InvOf IsZone (Span z (k + 2 ^ target) (k + 2 ^ (target + left))) a
    → InvOf IsZone (Span z (k + 2 ^ target) (k + 2 ^ target)) (split left target z k a)
      × ((split left target z k a).zones ≡ a.zones)
      × Frees a.zones IsZone a.metadata
          (split left target z k a).metadata
          z
          (k + 2 ^ target)
          (k + 2 ^ (target + left))
      × Aligned target k
unfolding split give_block mark push_block
split-Inv {IsZone} zero target z k a apart zone small al fits inv =
    let same : target + 0 ≡ target = omega arith in
    (
      subst (λ o. InvOf IsZone (Span z (k + 2 ^ target) (k + 2 ^ o)) a) same inv,
      refl,
      record {
        free = λ j ge lt. absurd (omega (arith, lt, ge, ap (λ o. 2 ^ o) same));
        same = λ z' j page out. refl;
      },
      subst (λ o. Aligned o k) same al,
    )
split-Inv {IsZone} (suc left) target z k a apart zone small al fits inv =
    let o = target + left in
    let next : target + suc left ≡ suc o = omega arith in
    let halves : 2 ^ (target + suc left) ≡ 2 * 2 ^ o = ap (λ n. 2 ^ n) next ∙ power-suc o in
    let al' : Aligned (suc o) k = subst (λ n. Aligned n k) next al in
    let wider : 2 ^ target ≤ 2 ^ o = pow-le-pow_right (omega arith) (omega arith) in
    let block : Block a.zones IsZone z (k + 2 ^ o) o (free_byte o) = record {
      zone_ok = zone;
      small = omega arith;
      aligned = Aligned-high o k al';
      fits = omega arith;
      kind = inr refl;
    } in
    let without =
      Span-last z (k + 2 ^ target) (k + 2 ^ o) o (k + 2 ^ (target + suc left)) (omega arith)
        (omega arith) in
    let inv' = give_block-Inv o z (k + 2 ^ o) a apart inv without block in
    let here = give_block-Frees o z (k + 2 ^ o) a apart block in
    let (final, same_zones, rest, al_target) =
      split-Inv left target z k (give_block o z (k + 2 ^ o) a) apart zone (omega arith)
        (Aligned-low o k al') (omega arith) inv' in
    (
      final,
      same_zones,
      record {
        free = λ j ge lt. elim (dec_lt j (k + 2 ^ o)) [
          | yes low ↦ rest.free j ge low
          | no high ↦
              subst (λ x. 128 ≤ x)
                (sym (rest.same z j (zone, omega arith) λ (_, (_, lt')). high lt'))
                (here.free j (omega arith) (omega arith))
        ];
        same = λ z' j page out.
            rest.same z' j page (λ (s, (ge, lt)). out (s, (ge, omega arith)))
            ∙ here.same z' j page (λ (s, (ge, lt)). out (s, (omega arith, omega arith)));
      },
      al_target,
    )
