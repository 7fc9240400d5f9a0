-- ===== src/Tests/Pages.antt =====
-- Inputs for Pages: the numbers of pages that `add_range` reserves.
use mars.Prelude.{ℕ, ◌<◌, ◌≡◌, refl, arith}
use mars.Pages.Reserve.{
  reserve, done, out_of_fuel, IsEnough, reserve-total, reserve-diverges, HasNoFixpoint,
  needed_reserved,
}

-- 1 GiB is 65536 pages, of which 5 hold the metadata.
reserve_one_gib : reserve 5 65536 ≡ done 5
unfolding reserve needed_reserved
reserve_one_gib = refl

-- 16354 pages, just under 256 MiB, keep the loop going between 1 and 2 reserved pages.
reserve_16354 : reserve 100 16354 ≡ out_of_fuel
unfolding reserve needed_reserved
reserve_16354 = refl

-- A number of the form 16385 * b - 31 leaves a remainder that this one does not.
one_gib-regular : ¬ HasNoFixpoint 65536
one_gib-regular (b, h, e) = omega arith

reserve-total_example : (r : ℕ) × (reserve 5 65536 ≡ done r) × IsEnough 65536 r × (r < 65536)
reserve-total_example = reserve-total 65536 (omega arith) (omega arith) one_gib-regular

reserve-diverges_example : reserve 100 16354 ≡ out_of_fuel
reserve-diverges_example = reserve-diverges 16354 (1, omega arith, omega arith) 100
