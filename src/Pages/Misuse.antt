-- ===== src/Pages/Misuse.antt =====
-- klib/src/pm/page/mod.rs: `free_pages` on addresses at which no block has been handed out.
use mars.Pages.Tiles.{power-positive, Within-start}
use mars.Pages.Release.{HandedOut}
use mars.Pages.Regions.{InvOf, Nothing}
use mars.Prelude.{
  ℕ, ◌+◌, ◌-◌, ◌*◌, ◌/◌, ◌%◌, ◌≤◌, ◌<◌, ◌≡◌, refl, ◌∙◌, ◌≢◌, ◌⊎◌, inl, inr, true, false, List,
  arith, ◌==◌, Bool-cases, length, subst, sym, ap,
}
use mars.Pages.Reserve.{panic, done}
use mars.Pages.Memory.{Zone, PageAllocator, is_free_byte, page_address}
use mars.Pages.Buddy.{free_in_zone, free_pages}
use mars.Pages.Invariant.{Page, Apart, value}
use mars.Pages.Zones.{Listed, owns, free_from-found, free_pages-Given, Listed-same}

-- The page of an address in a zone.
abbrev pub page_of : Zone → ℕ → ℕ
page_of zone address = (address - zone.data_base) / 16384

module _ {IsZone : ℕ → Type 0} (z address : ℕ) (zs : List ℕ) (a : PageAllocator)
    (apart : Apart a.zones IsZone) (listed : Listed IsZone a zs) (zone : IsZone z)
    (own : owns (a.zones z) address ≡ true) where
  ge : (a.zones z).data_base ≤ address
  ge = ground (arith, own)

  lt : address < (a.zones z).data_base + (a.zones z).total_pages * 16384
  lt = ground (arith, own)

  page : Page a.zones IsZone z (page_of (a.zones z) address)
  page = (zone, omega (arith, ge, lt))

  nonnull : address ≢ 0
  nonnull e = apart.not_null z (page_of (a.zones z) address) page (omega (arith, e, ge))

  owner_unique : (y : ℕ) → IsZone y → owns (a.zones y) address ≡ true → y ≡ z
  owner_unique y zone' own' =
      let ge' : (a.zones y).data_base ≤ address = ground (arith, own') in
      let lt' : address < (a.zones y).data_base + (a.zones y).total_pages * 16384 =
        ground (arith, own') in
      (apart.addresses y z (page_of (a.zones y) address) (page_of (a.zones z) address)
        (zone', omega (arith, ge', lt')) page
        (omega (arith, listed.paged z zone, listed.paged y zone', ge, ge'))).0

  -- An address inside a page, or of a free page, is refused by an assertion.
  pub free_pages-panics :
      (fuel : ℕ)
      → length zs ≤ fuel
      → (address % 16384 ≢ 0)
        ⊎ (is_free_byte (value a.zones IsZone a.metadata z (page_of (a.zones z) address)) ≡ true)
      → free_pages fuel address a ≡ panic
  unfolding free_pages free_in_zone
  free_pages-panics fuel enough bad =
      let (i, at_i, at) = listed.every z zone in
      let found =
        free_from-found fuel i z a.zone_head address zs a listed.chain at (omega arith) own
          λ j y e o. owner_unique y (listed.members j e) o in
      let test : (address == 0) ≡ false = ground (arith, nonnull) in
      rw test (
        found ∙ elim (Bool-cases ((address - (a.zones z).data_base) % 16384 == 0)) [
          | inr odd ↦ rw odd refl
          | inl even ↦ elim bad [
            | inl odd ↦ absurd (odd (ground (arith, even, listed.paged z zone, ge)))
            | inr free ↦ rw (even, free) refl
          ]
        ])

-- A page whose byte is 128 at least is free.
free_byte-is_free :
    {IsZone : ℕ → Type 0} (z k : ℕ) (a : PageAllocator)
    → InvOf IsZone Nothing a
    → Page a.zones IsZone z k
    → 128 ≤ value a.zones IsZone a.metadata z k
    → is_free_byte (value a.zones IsZone a.metadata z k) ≡ true
free_byte-is_free z k a inv page ge =
    let t = inv.tiles z k page (λ n. n) in ground (arith, t.whole.kind, t.whole.small, ge)

-- A block that is freed twice is refused. `free_pages` of a block that has been handed out ends, and
-- the same call after it panics.
pub free_pages-twice :
    {IsZone : ℕ → Type 0} (fuel o z k : ℕ) (zs : List ℕ) (a : PageAllocator)
    → Apart a.zones IsZone
    → InvOf IsZone Nothing a
    → Listed IsZone a zs
    → length zs ≤ fuel
    → HandedOut IsZone o z k a
    → (a' : PageAllocator) × (free_pages fuel (page_address a.zones z k) a ≡ done a')
      × (free_pages fuel (page_address a.zones z k) a' ≡ panic)
free_pages-twice {IsZone} fuel o z k zs a apart inv listed enough block =
    let address = page_address a.zones z k in
    let (a', once, given, _) = free_pages-Given fuel o z k zs a apart inv listed enough block in
    let apart' = subst (λ zones. Apart zones IsZone) (sym given.same_zones) apart in
    let listed' = Listed-same a' given.same_zones given.same_head listed in
    let fits : k < (a.zones z).total_pages = omega (arith, block.inside, power-positive o) in
    let total = ap (λ zones. (zones z).total_pages) given.same_zones in
    let base = ap (λ zones. (zones z).data_base) given.same_zones in
    let own : owns (a'.zones z) address ≡ true = ground (arith, fits, total, base) in
    let here : page_of (a'.zones z) address ≡ k = omega (arith, base) in
    let free : 128 ≤ value a'.zones IsZone a'.metadata z k =
      subst (λ zones. 128 ≤ value zones IsZone a'.metadata z k) (sym given.same_zones)
        (given.freed.free k (Within-start o k)) in
    let bit = free_byte-is_free z k a' given.inv (block.zone_ok, omega (arith, fits, total)) free in
    (
      a',
      once,
      free_pages-panics z address zs a' apart' listed' block.zone_ok own fuel enough (
          inr (
            subst (λ j. is_free_byte (value a'.zones IsZone a'.metadata z j) ≡ true) (sym here)
              bit)),
    )
