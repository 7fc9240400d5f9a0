-- ===== src/Pages/Carve.antt =====
-- klib/src/pm/page/mod.rs: the loop of `add_range` that lists the pages of a new zone.
use mars.Prelude.{
  ℕ, subst, zero, suc, ◌+◌, ◌-◌, ◌*◌, ◌/◌, ◌%◌, ◌^◌, ◌≤◌, ◌<◌, min, ◌≡◌, refl, sym, ap, ◌∙◌, inr,
  true, false, arith, dec_lt, ℕ_discrete, ltb, ◌==◌,
}
use mars.Pages.Memory.{PageAllocator, free_byte, mark, push_block}
use mars.Pages.Buddy.{trailing_zeros, ilog2, carve_order, carve, give_block}
use mars.Pages.Invariant.{Aligned, Apart}
use mars.Pages.Regions.{Span, InvOf, power-suc, give_block-Inv}
use mars.Pages.Settle.{Block}
use mars.Pages.Split.{Aligned-weaken, Span-first, Frees, give_block-Frees}
use mars.Pages.Tiles.{power-positive}
use native.Mathlib.Nat.{pow-le-pow_right}

-- A number is a multiple of 2 to its trailing zeros.
trailing_zeros-Aligned : (width n : ℕ) → Aligned (trailing_zeros width n) n
unfolding trailing_zeros
trailing_zeros-Aligned zero n = (n, omega arith)
trailing_zeros-Aligned (suc width) n = elim (ℕ_discrete (n % 2) 0) [
  | no odd ↦ let bit : (n % 2 == 0) ≡ false = ground arith in rw bit (n, omega arith)
  | yes even ↦
      let bit : (n % 2 == 0) ≡ true = ground arith in
      let (c, e) = trailing_zeros-Aligned width (n / 2) in
      let q = 2 ^ trailing_zeros width (n / 2) in
      let twice : n ≡ 2 * (n / 2) = omega arith in
      rw bit (
        c,
        twice
            ∙ ap (λ x. 2 * x) e
            ∙ doubled c q
            ∙ ap (λ x. c * x) (sym (power-suc (trailing_zeros width (n / 2)))),
      )
]
  where
    doubled : (c q : ℕ) → 2 * (c * q) ≡ c * (2 * q)
    doubled c q = grind arith

ilog2-le : (width n : ℕ) → 0 < n → 2 ^ ilog2 width n ≤ n
unfolding ilog2
ilog2-le zero n h = omega arith
ilog2-le (suc width) n h = elim (dec_lt n 2) [
  | yes one ↦ let test : ltb n 2 ≡ true = ground arith in rw test (omega arith)
  | no more ↦
      let test : ltb n 2 ≡ false = ground arith in
      rw test (omega (arith, power-suc (ilog2 width (n / 2)), ilog2-le width (n / 2) (omega arith)))
]

Aligned-below : (o n k : ℕ) → o ≤ n → Aligned n k → Aligned o k
Aligned-below o n k le al =
    let sum : n ≡ o + (n - o) = omega arith in
    Aligned-weaken (n - o) o k (subst (λ m. Aligned m k) sum al)

-- The block that is carved next is aligned and inside.
carve_order-fits :
    (usable index : ℕ)
    → index < usable
    → Aligned (carve_order usable index) index
      × (index + 2 ^ carve_order usable index ≤ usable)
      × (carve_order usable index < 11)
unfolding carve_order
carve_order-fits usable index lt =
    let rest = usable - index in
    let large = ilog2-le 64 rest (omega arith) in
    elim (ℕ_discrete index 0) [
      | yes first ↦
          let o = min (min 10 (ilog2 64 rest)) 10 in
          let test : (index == 0) ≡ true = ground arith in
          let wide : 2 ^ o ≤ 2 ^ ilog2 64 rest = pow-le-pow_right (omega arith) (omega arith) in
          let fits : index + 2 ^ o ≤ usable = omega (arith, wide, large) in
          let al : Aligned o index = (0, omega (arith, first)) in rw test (al, fits, omega arith)
      | no later ↦
          let zeros = trailing_zeros 64 index in
          let o = min (min zeros (ilog2 64 rest)) 10 in
          let test : (index == 0) ≡ false = ground arith in
          let wide : 2 ^ o ≤ 2 ^ ilog2 64 rest = pow-le-pow_right (omega arith) (omega arith) in
          let fits : index + 2 ^ o ≤ usable = omega (arith, wide, large) in
          let al = Aligned-below o zeros index (omega arith) (trailing_zeros-Aligned 64 index) in
          rw test (al, fits, omega arith)
    ]

-- The pages of a zone from `index` on are listed, each as a part of a free block.
pub record Carved (IsZone : ℕ → Type 0) (z usable index : ℕ) (a a' : PageAllocator) : Type 0 where
  pub inv : InvOf IsZone (Span z usable usable) a'
  pub same_zones : a'.zones ≡ a.zones
  pub frees : Frees a.zones IsZone a.metadata a'.metadata z index usable

-- Nothing is left to list.
nothing_left :
    {IsZone : ℕ → Type 0} (z usable index : ℕ) (a : PageAllocator)
    → index ≡ usable
    → InvOf IsZone (Span z index usable) a
    → Carved IsZone z usable index a a
nothing_left {IsZone} z usable index a here inv = record {
  inv = subst (λ i. InvOf IsZone (Span z i usable) a) here inv;
  same_zones = refl;
  frees = record { free = λ j ge lt. absurd (omega arith); same = λ z' j page out. refl };
}

pub carve-Carved :
    {IsZone : ℕ → Type 0} (fuel z usable index : ℕ) (a : PageAllocator)
    → Apart a.zones IsZone
    → IsZone z
    → (a.zones z).total_pages ≡ usable
    → index ≤ usable
    → usable ≤ index + fuel
    → InvOf IsZone (Span z index usable) a
    → Carved IsZone z usable index a (carve fuel z usable index a)
unfolding carve give_block mark push_block
carve-Carved zero z usable index a apart zone total le enough inv =
    nothing_left z usable index a (omega arith) inv
carve-Carved {IsZone} (suc fuel) z usable index a apart zone total le enough inv =
    elim (dec_lt index usable) [
      | no stop ↦
          let test : ltb index usable ≡ false = ground arith in
          rw test (nothing_left z usable index a (omega arith) inv)
      | yes more ↦
          let test : ltb index usable ≡ true = ground arith in
          let o = carve_order usable index in
          let (al, fits, small) = carve_order-fits usable index more in
          let block : Block a.zones IsZone z index o (free_byte o) = record {
            zone_ok = zone;
            small = small;
            aligned = al;
            fits = omega (arith, fits, total);
            kind = inr refl;
          } in
          let inv' =
            give_block-Inv o z index a apart inv
              (Span-first z index o (index + 2 ^ o) usable refl fits) block in
          let here = give_block-Frees o z index a apart block in
          let rest =
            carve-Carved fuel z usable (index + 2 ^ o) (give_block o z index a) apart zone total
              fits (omega (arith, power-positive o, enough)) inv' in
          let both : Carved IsZone z usable index a
              (carve fuel z usable (index + 2 ^ o) (give_block o z index a)) =
            record {
              inv = rest.inv;
              same_zones = rest.same_zones;
              frees = record {
                free = λ j ge lt. elim (dec_lt j (index + 2 ^ o)) [
                  | no high ↦ rest.frees.free j (omega arith) lt
                  | yes low ↦
                      subst (λ x. 128 ≤ x)
                        (sym (
                          rest.frees.same z j (zone, omega (arith, total))
                            λ (_, (ge', _)). absurd (omega (arith, ge', low))))
                        (here.free j ge low)
                ];
                same = λ z' j page out.
                    rest.frees.same z' j page (λ (s, (ge, lt)). out (s, (omega arith, lt)))
                    ∙ here.same z' j page (λ (s, (ge, lt)). out (s, (ge, omega (arith, fits, lt))));
              };
            } in
          rw test both
    ]
