-- ===== src/Pages/AddZone.antt =====
-- klib/src/pm/page/mod.rs: the part of `add_range` that makes a zone of a range.
use mars.Prelude.{
  ℕ, subst, zero, suc, ◌+◌, ◌-◌, ◌*◌, ◌%◌, ◌^◌, ◌≤◌, ◌<◌, ◌≡◌, refl, sym, ap, ◌∙◌, ◌≢◌, ◌⊎◌, inl,
  inr, ◌||◌, some, List, [], ◌∷◌, arith, dec_lt, dec_le, ltb, ◌==◌, if◌then◌else◌, Bool-cases,
  get_elem?,
}
use mars.Prelude.Family.{update, update_self}
use mars.Pages.Reserve.{zone_size}
use mars.Pages.Memory.{Zone, PageAllocator, fill, mark, push_block}
use mars.Pages.Buddy.{carve, give_block, add_zone}
use mars.Pages.Invariant.{Page, Apart, value}
use mars.Pages.Regions.{Nothing, InvOf, Inv-iff}
use mars.Pages.Steps.{fill_outside}
use mars.Pages.Carve.{Carved, carve-Carved}
use mars.Pages.Extend.{Or, Extends, extend-Inv}
use mars.Pages.Zones.{ZoneList, Listed, link, last, uncons, unnil}

-- The pointer to the zone of a range, and the zones with it.
abbrev pub zone_at : ℕ → ℕ → ℕ
zone_at start reserved = start + reserved * 16384 - zone_size

abbrev pub zones_with : ℕ → ℕ → ℕ → PageAllocator → ℕ → Zone
zones_with start usable reserved a = update a.zones (zone_at start reserved) (record {
  meta_array = start;
  data_base = start + reserved * 16384;
  total_pages = usable;
  next = a.zone_head;
})

-- The new zone, with the old bytes kept, before its pages are listed.
abbrev prepared : ℕ → ℕ → ℕ → PageAllocator → PageAllocator
prepared start usable reserved a = record a {
  lowest_address =
      if a.lowest_address == 0 || ltb (start + reserved * 16384) a.lowest_address
      then start + reserved * 16384
      else a.lowest_address;
  metadata = fill usable start 0 a.metadata;
  zones = zones_with start usable reserved a;
  zone_head = zone_at start reserved;
  total_pages = (a.total_pages + usable) % 2 ^ 64;
}

-- What `add_zone` promises: its pages are free, the pages of the other zones have their bytes, the
-- invariant holds, and the list of zones has one more at its front.
pub record Added (IsZone : ℕ → Type 0) (z usable : ℕ) (zs : List ℕ) (a a' : PageAllocator)
    : Type 0 where
  pub inv : InvOf (Or IsZone z) Nothing a'
  pub listed : Listed (Or IsZone z) a' (z ∷ zs)
  pub apart : Apart a'.zones (Or IsZone z)
  pub free : (j : ℕ) → j < usable → 128 ≤ value a'.zones (Or IsZone z) a'.metadata z j
  pub keeps :
      (y j : ℕ)
      → Page a.zones IsZone y j
      → value a'.zones (Or IsZone z) a'.metadata y j ≡ value a.zones IsZone a.metadata y j

carve-zone_head :
    (fuel z usable index : ℕ) (a : PageAllocator)
    → (carve fuel z usable index a).zone_head ≡ a.zone_head
unfolding carve give_block mark push_block
carve-zone_head zero z usable index a = refl
carve-zone_head (suc fuel) z usable index a = elim (Bool-cases (ltb index usable)) [
  | inl more ↦ rw more (carve-zone_head fuel z usable _ _)
  | inr stop ↦ rw stop refl
]

-- A list of zones outlives a change of another zone.
ZoneList-update :
    {zones : ℕ → Zone} (z head : ℕ) (new : Zone) (zs : List ℕ)
    → ((i y : ℕ) → get_elem? zs i ≡ some y → y ≢ z)
    → ZoneList zones head zs
    → ZoneList (update zones z new) head zs
ZoneList-update {zones} z head new [] differ chain =
    subst (λ h. ZoneList (update zones z new) h []) (sym (unnil chain)) last
ZoneList-update {zones} z head new (y ∷ zs) differ chain =
    let (same, ne, rest) = uncons chain in
    let kept : update zones z new y ≡ zones y = ground (arith, differ 0 y refl) in
    let tail = ZoneList-update z (zones y).next new zs (λ i x e. differ (suc i) x e) rest in
    subst (λ h. ZoneList (update zones z new) h (y ∷ zs)) (sym same)
      (link ne (subst (λ x. ZoneList (update zones z new) x.next zs) (sym kept) tail))

module _ {IsZone : ℕ → Type 0} (start usable reserved : ℕ) (zs : List ℕ) (a : PageAllocator)
    (inv : InvOf IsZone Nothing a) (listed : Listed IsZone a zs)
    (other : ¬ IsZone (zone_at start reserved)) (some_reserved : 0 < reserved)
    (aligned : start % 16384 ≡ 0)
    (apart : Apart (zones_with start usable reserved a) (Or IsZone (zone_at start reserved))) where
  abbrev z : ℕ
  z = zone_at start reserved

  abbrev p : PageAllocator
  p = prepared start usable reserved a

  new_zone : p.zones z ≡ record {
    meta_array = start;
    data_base = start + reserved * 16384;
    total_pages = usable;
    next = a.zone_head;
  }
  new_zone = update_self a.zones z _

  new_total : (p.zones z).total_pages ≡ usable
  new_total = ap (λ x. x.total_pages) new_zone

  differs : (y : ℕ) → IsZone y → y ≢ z
  differs y zone e = other (subst (λ x. IsZone x) e zone)

  old_zone : (y : ℕ) → IsZone y → p.zones y ≡ a.zones y
  old_zone y zone = ground (arith, differs y zone)

  -- The new bytes of metadata are no other zone's.
  old_byte :
      (y j : ℕ)
      → Page a.zones IsZone y j
      → value p.zones IsZone p.metadata y j ≡ value a.zones IsZone a.metadata y j
  old_byte y j (zone, lt) =
      let here : (p.zones y).meta_array + j ≡ (a.zones y).meta_array + j =
        ap (λ x. x.meta_array + j) (old_zone y zone) in
      let total = ap (λ x. x.total_pages) (old_zone y zone) in
      let b = (a.zones y).meta_array + j in
      let outside : b < start ⊎ (start + usable ≤ b) = elim (dec_lt b start) [
        | yes below ↦ inl below
        | no ge ↦ elim (dec_le (start + usable) b) [
          | yes above ↦ inr above
          | no lt' ↦
              let meta = ap (λ x. x.meta_array) new_zone in
              absurd (
                differs y zone
                  (apart.metas y z j (b - start) (inl zone, omega (arith, lt, total))
                    (inr refl, omega (arith, ge, lt', new_total))
                    (omega (arith, here, meta, ge))).0)
        ]
      ] in
      ap (λ x. fill usable start 0 a.metadata x) here
      ∙ fill_outside usable start 0 a.metadata b outside

  extends : Extends a.zones p.zones IsZone a.metadata p.metadata
  extends = record { same_zone = old_zone; same_byte = old_byte }

  carved : Carved (Or IsZone z) z usable 0 p (carve usable z usable 0 p)
  carved =
      carve-Carved usable z usable 0 p apart (inr refl) new_total (omega arith) (omega arith)
        (extend-Inv z usable new_total other extends inv)

  all-Listed : Listed (Or IsZone z) p (z ∷ zs)
  all-Listed = record {
    chain = link (omega (arith, some_reserved)) (
        subst (λ x. ZoneList p.zones x.next zs) (sym new_zone)
          (ZoneList-update z a.zone_head _ zs (λ i y e. differs y (listed.members i e))
            listed.chain));
    members = member;
    every = λ y zone. elim zone [
      | inl old ↦ let (i, lt, e) = listed.every y old in (suc i, omega arith, e)
      | inr s ↦ (0, omega arith, ap some (sym s))
    ];
    paged = λ y zone. elim zone [
      | inl old ↦ ap (λ x. x.data_base % 16384) (old_zone y old) ∙ listed.paged y old
      | inr s ↦
          omega (arith, aligned, ap (λ x. (p.zones x).data_base) s, ap (λ x. x.data_base) new_zone)
    ];
  }
    where
      member : (i : ℕ) {y : ℕ} → get_elem? (z ∷ zs) i ≡ some y → Or IsZone z y
      member zero {y} e = inr (ground (arith, e))
      member (suc i) {y} e = inl (listed.members i e)

  -- `add_zone` adds a zone all of whose pages are free, and changes nothing else: from an allocator
  -- that keeps the invariant, a page-aligned range whose pages overlap no other zone gives one that
  -- keeps it, with the new zone at the front of the list.
  pub add_zone-Added : Added IsZone z usable zs a (add_zone start usable reserved a)
  unfolding add_zone
  add_zone-Added =
      let a' = carve usable z usable 0 p in
      let same_head = carve-zone_head usable z usable 0 p in
      let back = sym carved.same_zones in
      record {
        inv =
            Inv-iff (λ y j s. absurd (omega (arith, s.1.0, s.1.1))) (λ y j n. absurd n) carved.inv;
        listed = record {
          chain =
              subst (λ h. ZoneList a'.zones h (z ∷ zs)) (sym same_head)
                (subst (λ zones. ZoneList zones z (z ∷ zs)) back all-Listed.chain);
          members = all-Listed.members;
          every = all-Listed.every;
          paged = λ y zone.
              ap (λ zones. (zones y).data_base % 16384) carved.same_zones ∙ all-Listed.paged y zone;
        };
        apart = subst (λ zones. Apart zones (Or IsZone z)) back apart;
        free = λ j lt.
            subst (λ zones. 128 ≤ value zones (Or IsZone z) a'.metadata z j) back
              (carved.frees.free j (omega arith) lt);
        keeps = λ y j page.
            ap (λ zones. value zones (Or IsZone z) a'.metadata y j) carved.same_zones
            ∙ carved.frees.same y j
                (inl page.0, omega (arith, page.1, ap (λ x. x.total_pages) (old_zone y page.0)))
                (λ (s, _). differs y page.0 s)
            ∙ old_byte y j page;
      }
