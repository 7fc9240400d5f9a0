-- ===== src/Pages/Reserve.antt =====
-- klib/src/pm/page/mod.rs, lines 98 to 121: how many pages `add_range` sets aside, at the start of a
-- range of `total` pages, for one byte of metadata for each page that is left and for the `Zone`.
use mars.Prelude.{
  ℕ, zero, suc, ◌+◌, ◌-◌, ◌*◌, ◌/◌, ◌^◌, ◌<◌, ◌≤◌, ◌≡◌, ◌≢◌, refl, arith, ltb, ◌==◌, if◌then◌else◌,
  dec_le, ℕ_discrete,
}

-- `out_of_fuel` is a loop that has not ended after the rounds it was given.
pub data Outcome {ℓ} (A : Type ℓ) : Type ℓ where
  done : A → Outcome A
  panic : Outcome A
  out_of_fuel : Outcome A

abbrev pub page_size : ℕ
page_size = 16384

-- `size_of::<Zone>()`: three words and a pointer.
abbrev pub zone_size : ℕ
zone_size = 32

-- `needed_reserved`. A range has less than 2 ^ 50 pages, so the sums do not overflow.
unfoldable pub needed_reserved : ℕ → ℕ → ℕ
needed_reserved total reserved = (total - reserved + zone_size + page_size - 1) / page_size

-- The `loop`, from `reserved` on.
unfoldable pub reserve_loop : ℕ → ℕ → ℕ → Outcome ℕ
reserve_loop zero total reserved = out_of_fuel
reserve_loop (suc fuel) total reserved =
    let rest = reserve_loop fuel total (needed_reserved total reserved) in
    if ltb total reserved
    then panic
    else if needed_reserved total reserved == reserved
    then done reserved
    else rest

-- The loop, and the assertion that some page is left.
unfoldable pub reserve : ℕ → ℕ → Outcome ℕ
unfolding reserve_loop
reserve fuel total = elim (reserve_loop fuel total 0) [
  | done reserved ↦ if ltb 0 (total - reserved) then done reserved else panic
  | panic ↦ panic
  | out_of_fuel ↦ out_of_fuel
]

-- The totals at which no number of reserved pages is the number that is needed for the rest.
abbrev pub HasNoFixpoint : ℕ → Type 0
HasNoFixpoint total = (b : ℕ) × (0 < b) × (total + 31 ≡ 16385 * b)

needed_reserved-le : (total reserved : ℕ) → 0 < total → needed_reserved total reserved ≤ total
unfolding needed_reserved
needed_reserved-le total reserved h = omega arith

needed_reserved-ne :
    (b total reserved : ℕ)
    → 0 < b
    → total + 31 ≡ 16385 * b
    → needed_reserved total reserved ≢ reserved
unfolding needed_reserved
needed_reserved-ne b total reserved h e = omega arith

reserve_loop-diverges :
    (fuel b total reserved : ℕ)
    → 0 < b
    → total + 31 ≡ 16385 * b
    → reserved ≤ total
    → reserve_loop fuel total reserved ≡ out_of_fuel
unfolding reserve_loop
reserve_loop-diverges zero b total reserved h e le = refl
reserve_loop-diverges (suc fuel) b total reserved h e le = ground (
  arith,
  needed_reserved-ne b total reserved,
  needed_reserved-le total reserved,
  reserve_loop-diverges fuel b total (needed_reserved total reserved) h e,
)

-- On a range of 16385 * b - 31 pages, for any b from 1 on, the loop never ends.
pub reserve-diverges :
    (total : ℕ) → HasNoFixpoint total → (fuel : ℕ) → reserve fuel total ≡ out_of_fuel
unfolding reserve
reserve-diverges total (b, h, e) fuel =
    rw (reserve_loop-diverges fuel b total 0 h e (omega arith), reserve)

-- A later round is nearer to its successor, by the factor of the page size.
needed_reserved-near :
    (total x y : ℕ)
    → x ≤ y
    → (needed_reserved total y ≤ needed_reserved total x)
      × (needed_reserved total x ≤ needed_reserved total y + (y - x + 16383) / 16384)
unfolding needed_reserved
needed_reserved-near total x y h = omega arith

needed_reserved-first : (total : ℕ) → total < 2 ^ 50 → needed_reserved total 0 ≤ 2 ^ 36 + 1
unfolding needed_reserved
needed_reserved-first total h = omega arith

needed_reserved-cycle :
    (total x : ℕ)
    → needed_reserved total x ≡ x + 1
    → needed_reserved total (x + 1) ≡ x
    → 0 < total
    → total + 31 ≡ 16385 * x
unfolding needed_reserved
needed_reserved-cycle total x p q h = omega arith

-- The loop from `reserved` on ends within the fuel, at a fixpoint.
abbrev Settles : ℕ → ℕ → ℕ → Type 0
Settles fuel total reserved =
    (r : ℕ) × (reserve_loop fuel total reserved ≡ done r)
    × (needed_reserved total r ≡ r)
    × (r ≤ total)

-- Two rounds that follow one another are at most `d` apart.
abbrev Near : ℕ → ℕ → ℕ → Type 0
Near d x y = (x ≤ y + d) × (y ≤ x + d)

module _ (total : ℕ) (some_pages : 0 < total) where
  Settles-here : (fuel x : ℕ) → x ≤ total → needed_reserved total x ≡ x → Settles (suc fuel) total x
  unfolding reserve_loop
  Settles-here fuel x le e = (x, ground arith, e, le)

  Settles-next :
      (fuel x : ℕ)
      → x ≤ total
      → needed_reserved total x ≢ x
      → Settles fuel total (needed_reserved total x)
      → Settles (suc fuel) total x
  unfolding reserve_loop
  Settles-next fuel x le ne (r, ends, fix, le') = (r, ground arith, fix, le')

  Near-next :
      (d x : ℕ)
      → Near d x (needed_reserved total x)
      → Near
          ((d + 16383) / 16384)
          (needed_reserved total x)
          (needed_reserved total (needed_reserved total x))
  Near-next d x n = elim (dec_le x (needed_reserved total x)) [
    | yes up ↦ omega (arith, needed_reserved-near total x (needed_reserved total x) up)
    | no down ↦ omega (arith, needed_reserved-near total (needed_reserved total x) x (omega arith))
  ]

  module _ (regular : ¬ HasNoFixpoint total) where
    -- Neighbours: a round later the loop is at its fixpoint, or it would go on for ever.
    not-cycle : (x : ℕ) → needed_reserved total x ≡ x + 1 → needed_reserved total (x + 1) ≢ x
    not-cycle x p q = regular (
      x,
      omega (arith, needed_reserved-cycle total x p q some_pages),
      needed_reserved-cycle total x p q some_pages,
    )

    Near-fixpoint :
        (x : ℕ)
        → Near 1 x (needed_reserved total x)
        → needed_reserved total x ≢ x
        → needed_reserved total (needed_reserved total x) ≡ needed_reserved total x
    Near-fixpoint x n ne = elim (dec_le x (needed_reserved total x)) [
      | yes up ↦
          let y_eq : needed_reserved total x ≡ x + 1 = omega arith in
          rw y_eq (
            omega
              (arith, y_eq, not-cycle x y_eq, needed_reserved-near total x (x + 1) (omega arith)))
      | no down ↦
          let x_eq : needed_reserved total x + 1 ≡ x = omega arith in
          omega (
            arith,
            needed_reserved-near total (needed_reserved total x) x (omega arith),
            λ (p : needed_reserved total (needed_reserved total x) ≡ needed_reserved total x + 1).
                not-cycle (needed_reserved total x) p (rw x_eq refl),
          )
    ]

    Settles-neighbour : (x : ℕ) → x ≤ total → Near 1 x (needed_reserved total x) → Settles 2 total x
    Settles-neighbour x le n = elim (ℕ_discrete (needed_reserved total x) x) [
      | yes e ↦ Settles-here 1 x le e
      | no ne ↦ Settles-next 1 x le ne (
          Settles-here 0 (needed_reserved total x) (needed_reserved-le total x some_pages)
            (Near-fixpoint x n ne))
    ]

    Settles-step :
        (fuel d x : ℕ)
        → ((y : ℕ)
            → y ≤ total
            → Near ((d + 16383) / 16384) y (needed_reserved total y)
            → Settles fuel total y)
        → x ≤ total
        → Near d x (needed_reserved total x)
        → Settles (suc fuel) total x
    Settles-step fuel d x rest le n = elim (ℕ_discrete (needed_reserved total x) x) [
      | yes e ↦ Settles-here fuel x le e
      | no ne ↦
          Settles-next fuel x le ne (
            rest (needed_reserved total x) (needed_reserved-le total x some_pages)
              (Near-next d x n))
    ]

    Settles-start : total < 2 ^ 50 → Settles 5 total 0
    Settles-start small =
        Settles-step 4 (2 ^ 36 + 1) 0
          (λ x.
            Settles-step 3 (2 ^ 22 + 1) x
              (λ y. Settles-step 2 (2 ^ 8 + 1) y (λ z. Settles-neighbour z)))
          (omega arith) (omega (arith, needed_reserved-first total small))

-- The bytes of metadata and the `Zone` at the end of the reserved pages do not overlap, and a page
-- less would not hold them.
abbrev pub IsEnough : ℕ → ℕ → Type 0
IsEnough total reserved =
    (total - reserved + zone_size ≤ reserved * page_size)
    × (reserved * page_size < total - reserved + zone_size + page_size)

IsEnough-of_fixpoint : (total r : ℕ) → needed_reserved total r ≡ r → IsEnough total r
unfolding needed_reserved
IsEnough-of_fixpoint total r e = omega arith

-- On a range of at least 2 and less than 2 ^ 50 pages that is none of those, the loop ends within five
-- rounds; the pages that it reserves hold a byte for each page left and the `Zone`, with less
-- than a page to spare, and some page is left.
pub reserve-total :
    (total : ℕ)
    → 1 < total
    → total < 2 ^ 50
    → ¬ HasNoFixpoint total
    → (r : ℕ) × (reserve 5 total ≡ done r) × IsEnough total r × (r < total)
unfolding reserve
reserve-total total h small regular =
    let (r, ends, fix, le) = Settles-start total (omega arith) regular small in
    let enough = IsEnough-of_fixpoint total r fix in
    (r, rw (ends, reserve) (ground arith), enough, omega arith)
