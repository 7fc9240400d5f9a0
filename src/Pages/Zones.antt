-- ===== src/Pages/Zones.antt =====
-- klib/src/pm/page/mod.rs: the list of zones, and `free_pages` along it.
use mars.Prelude.{
  ℕ, subst, zero, suc, ◌+◌, ◌-◌, ◌*◌, ◌/◌, ◌%◌, ◌≤◌, ◌<◌, ◌≡◌, refl, sym, ap, ◌∙◌, ◌≢◌, inl, inr,
  Bool, true, false, ◌&&◌, Option, none, some, List, [], ◌∷◌, arith, ltb, leb, ◌==◌, Bool-cases,
  get_elem?, length,
}
use mars.Pages.Reserve.{Outcome, done, panic}
use mars.Pages.Memory.{Zone, PageAllocator, page_address}
use mars.Pages.Buddy.{free_in_zone, free_from, free_pages}
use mars.Pages.Invariant.{Page, Apart}
use mars.Pages.Regions.{Nothing, InvOf}
use mars.Pages.Tiles.{power-positive}
use mars.Pages.Coalesce.{Coalesced}
use mars.Pages.Merge.{Given}
use mars.Pages.Release.{HandedOut, free_in_zone-Given}

-- The zones from a pointer on.
pub data ZoneList (zones : ℕ → Zone) : ℕ → List ℕ → Type 0 where
  last : ZoneList zones 0 []
  link :
      {z : ℕ} {zs : List ℕ} → z ≢ 0 → ZoneList zones (zones z).next zs → ZoneList zones z (z ∷ zs)

-- The zones of an allocator are those of a list, and their pages are at multiples of the page size.
pub record Listed (IsZone : ℕ → Type 0) (a : PageAllocator) (zs : List ℕ) : Type 0 where
  pub chain : ZoneList a.zones a.zone_head zs
  pub members : (i : ℕ) {z : ℕ} → get_elem? zs i ≡ some z → IsZone z
  pub every : (z : ℕ) → IsZone z → (i : ℕ) × (i < length zs) × (get_elem? zs i ≡ some z)
  pub paged : (z : ℕ) → IsZone z → (a.zones z).data_base % 16384 ≡ 0

-- `addr >= zone_start && addr < zone_end`.
abbrev pub owns : Zone → ℕ → Bool
owns zone address =
    leb zone.data_base address && ltb address (zone.data_base + zone.total_pages * 16384)

abbrev pub settle : Option PageAllocator → Outcome PageAllocator
settle none = panic
settle (some a) = done a

pub uncons :
    {zones : ℕ → Zone} {head z : ℕ} {zs : List ℕ}
    → ZoneList zones head (z ∷ zs)
    → (head ≡ z) × (z ≢ 0) × ZoneList zones (zones z).next zs
uncons (link ne rest) = (refl, ne, rest)

pub unnil : {zones : ℕ → Zone} {head : ℕ} → ZoneList zones head [] → head ≡ 0
unnil last = refl

in_tail :
    {y z : ℕ} (i : ℕ) (zs : List ℕ)
    → get_elem? (y ∷ zs) i ≡ some z
    → y ≢ z
    → (j : ℕ) × (j < i) × (get_elem? zs j ≡ some z)
in_tail zero zs e ne = absurd (ne (ground (arith, e)))
in_tail (suc i) zs e ne = (i, omega arith, e)

-- The search ends at the zone that owns the address.
pub free_from-found :
    (fuel i z head address : ℕ) (zs : List ℕ) (a : PageAllocator)
    → ZoneList a.zones head zs
    → get_elem? zs i ≡ some z
    → i < fuel
    → owns (a.zones z) address ≡ true
    → ((j y : ℕ) → get_elem? zs j ≡ some y → owns (a.zones y) address ≡ true → y ≡ z)
    → free_from fuel head address a ≡ settle (free_in_zone z address a)
unfolding free_from
free_from-found zero i z head address zs a chain at lt own only = absurd (omega arith)
free_from-found (suc fuel) i z head address [] a chain at lt own only = cc
free_from-found (suc fuel) i z head address (y ∷ zs) a chain at lt own only =
    let (same, ne, rest) = uncons chain in
    let nonnull : (y == 0) ≡ false = ground (arith, ne) in
    subst (λ h. free_from (suc fuel) h address a ≡ settle (free_in_zone z address a)) (sym same)
      (elim (Bool-cases (owns (a.zones y) address)) [
        | inl mine ↦
            rw (nonnull, mine) (ap (λ x. settle (free_in_zone x address a)) (only 0 y refl mine))
        | inr other ↦
            let differs : y ≢ z =
              λ e. absurd (ground (arith, ap (λ x. owns (a.zones x) address) e, own, other)) in
            let (j, before, there) = in_tail i zs at differs in
            rw (nonnull, other)
              (free_from-found fuel j z (a.zones y).next address zs a rest there (omega arith) own
                λ n x e o. only (suc n) x e o)
      ])

-- A page's address belongs to no other zone.
owns-Page :
    {IsZone : ℕ → Type 0} {zs : List ℕ} (z k y : ℕ) (a : PageAllocator)
    → Apart a.zones IsZone
    → Listed IsZone a zs
    → Page a.zones IsZone z k
    → IsZone y
    → owns (a.zones y) (page_address a.zones z k) ≡ true
    → y ≡ z
owns-Page z k y a apart listed page zone own =
    let j = (page_address a.zones z k - (a.zones y).data_base) / 16384 in
    let starts = listed.paged z page.0 in
    let starts' = listed.paged y zone in
    let ge : (a.zones y).data_base ≤ page_address a.zones z k = ground (arith, own) in
    let lt : page_address a.zones z k < (a.zones y).data_base + (a.zones y).total_pages * 16384 =
      ground (arith, own) in
    (apart.addresses y z j k (zone, omega (arith, lt, ge)) page
      (omega (arith, starts, starts', ge))).0

-- `free_pages` on the address of a block that was handed out. With enough fuel for the list of zones
-- it ends without a panic, the invariant holds, the pages of the block are free, the other used pages
-- have the bytes that they had, and free pages stay free. Buddies are merged as far as they can be: the
-- block lies in a free block that has the highest order, or whose buddy is not whole in the zone or is
-- no free block of the same order.
pub free_pages-Given :
    {IsZone : ℕ → Type 0} (fuel o z k : ℕ) (zs : List ℕ) (a : PageAllocator)
    → Apart a.zones IsZone
    → InvOf IsZone Nothing a
    → Listed IsZone a zs
    → length zs ≤ fuel
    → HandedOut IsZone o z k a
    → (a' : PageAllocator) × (free_pages fuel (page_address a.zones z k) a ≡ done a')
      × Given IsZone z k o a a'
      × Coalesced a.zones a'.metadata z k o
unfolding free_pages
free_pages-Given {IsZone} fuel o z k zs a apart inv listed enough block =
    let (i, lt, at) = listed.every z block.zone_ok in
    let (a', freed, given, alone) = free_in_zone-Given o z k a apart inv block in
    let page : Page a.zones IsZone z k =
      (block.zone_ok, omega (arith, block.inside, power-positive o)) in
    let nonnull : (page_address a.zones z k == 0) ≡ false =
      ground (arith, apart.not_null z k page) in
    let own : owns (a.zones z) (page_address a.zones z k) ≡ true = ground (arith, page.1) in
    let found =
      free_from-found fuel i z a.zone_head (page_address a.zones z k) zs a listed.chain at
        (omega arith) own λ j y e o. owns-Page z k y a apart listed page (listed.members j e) o in
    (a', rw nonnull (found ∙ ap settle freed), given, alone)

-- An allocator with the same zones has the same list of zones.
pub Listed-same :
    {IsZone : ℕ → Type 0} {zs : List ℕ} {a : PageAllocator} (a' : PageAllocator)
    → a'.zones ≡ a.zones
    → a'.zone_head ≡ a.zone_head
    → Listed IsZone a zs
    → Listed IsZone a' zs
Listed-same {IsZone} {zs} {a} a' same_zones same_head listed = record {
  chain =
      subst (λ zones. ZoneList zones a'.zone_head zs) (sym same_zones)
        (subst (λ h. ZoneList a.zones h zs) (sym same_head) listed.chain);
  members = listed.members;
  every = listed.every;
  paged = λ z zone. ap (λ zones. (zones z).data_base % 16384) same_zones ∙ listed.paged z zone;
}
