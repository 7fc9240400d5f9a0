-- ===== src/Pages/Highest.antt =====
-- klib/src/pm/page/mod.rs: `max_address`.
use mars.Prelude.{
  ℕ, zero, suc, ◌+◌, ◌*◌, ◌≤◌, ◌<◌, ◌≡◌, refl, ap, ◌∙◌, ◌⊎◌, inl, inr, true, false, some, List, [],
  ◌∷◌, arith, ltb, ◌==◌, if◌then◌else◌, Bool-cases, length, get_elem?,
}
use mars.Pages.Reserve.{done}
use mars.Pages.Memory.{Zone, PageAllocator}
use mars.Pages.Zones.{ZoneList, Listed, uncons, unnil}
use mars.Pages.Requests.{max_from, max_address}

abbrev pub end_of : Zone → ℕ
end_of zone = zone.data_base + zone.total_pages * 16384

-- `m` is the highest end of the zones of a list, and of `least`.
pub record Highest (zones : ℕ → Zone) (zs : List ℕ) (least m : ℕ) : Type 0 where
  pub above : (i z : ℕ) → get_elem? zs i ≡ some z → end_of (zones z) ≤ m
  pub least_below : least ≤ m
  pub attained :
      (m ≡ least) ⊎ ((i : ℕ) × (z : ℕ) × (get_elem? zs i ≡ some z) × (end_of (zones z) ≡ m))

higher : Zone → ℕ → ℕ
higher zone most = if ltb most (end_of zone) then end_of zone else most

Highest-cons :
    (zones : ℕ → Zone) (z : ℕ) (zs : List ℕ) (least m : ℕ)
    → Highest zones zs (higher (zones z) least) m
    → Highest zones (z ∷ zs) least m
unfolding higher
Highest-cons zones z zs least m h =
    let below = h.least_below in
    record {
      above = above;
      least_below = ground (arith, below);
      attained = elim h.attained [
        | inr (i, y, e, s) ↦ inr (suc i, y, e, s)
        | inl same ↦ elim (Bool-cases (ltb least (end_of (zones z)))) [
          | inl more ↦ inr (0, z, refl, ground (arith, same, more))
          | inr less ↦ inl (ground (arith, same, less))
        ]
      ];
    }
  where
    above : (i y : ℕ) → get_elem? (z ∷ zs) i ≡ some y → end_of (zones y) ≤ m
    above zero y e =
        let here : z ≡ y = ground (arith, e) in
        let low = h.least_below in ground (arith, low, ap (λ x. end_of (zones x)) here)
    above (suc i) y e = h.above i y e

max_from-Highest :
    (fuel head least : ℕ) (zs : List ℕ) (a : PageAllocator)
    → ZoneList a.zones head zs
    → length zs < fuel
    → (m : ℕ) × (max_from fuel head least a ≡ done m) × Highest a.zones zs least m
unfolding max_from higher
max_from-Highest zero head least zs a chain enough = absurd (omega arith)
max_from-Highest (suc fuel) head least [] a chain enough =
    let test : (head == 0) ≡ true = ground (arith, unnil chain) in
    (
      least,
      rw test refl,
      record { above = λ i z e. cc; least_below = omega arith; attained = inl refl },
    )
max_from-Highest (suc fuel) head least (z ∷ zs) a chain enough =
    let (same, ne, rest) = uncons chain in
    let test : (head == 0) ≡ false = ground (arith, same, ne) in
    let (m, e, h) =
      max_from-Highest fuel (a.zones z).next (higher (a.zones z) least) zs a rest (omega arith) in
    (
      m,
      rw test (ap (λ x. max_from fuel (a.zones x).next (higher (a.zones x) least) a) same ∙ e),
      Highest-cons a.zones z zs least m h,
    )

-- `max_address` is the highest end of a zone. Given more fuel than there are zones it ends; no zone
-- ends above its result, which is 0 or the end of a zone.
pub max_address-Highest :
    {IsZone : ℕ → Type 0} (fuel : ℕ) (zs : List ℕ) (a : PageAllocator)
    → Listed IsZone a zs
    → length zs < fuel
    → (m : ℕ) × (max_address fuel a ≡ done m) × Highest a.zones zs 0 m
unfolding max_address
max_address-Highest fuel zs a listed enough =
    max_from-Highest fuel a.zone_head 0 zs a listed.chain enough
