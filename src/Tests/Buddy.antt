-- ===== src/Tests/Buddy.antt =====
-- Inputs for Pages: an allocator with one zone of three pages, and the same with page 2 handed out.

use mars.Pages.Highest.{Highest, max_address-Highest}
use mars.Pages.Requests.{max_address}
use mars.Prelude.{
  ℕ, ◌+◌, ◌≤◌, ◌<◌, ◌≡◌, refl, sym, ap, ◌∙◌, ◌⊎◌, inl, inr, [], ◌∷◌, arith, ℕ_discrete,
}
use mars.Pages.Reserve.{done, panic, reserve_loop, needed_reserved, reserve}
use mars.Pages.Memory.{Zone, PageAllocator, page_address, fill, mark, pop_block, push_block}
use mars.Pages.Buddy.{
  new, add_zone, add_range, alloc_pages, free_pages, carve, give_block, first_free, take_pages,
  split, carve_order, trailing_zeros, ilog2,
}
use mars.Pages.Invariant.{Apart}
use mars.Pages.Alloc.{Allocated, alloc_pages-outcome}
use mars.Pages.Merge.{Given}
use mars.Pages.Release.{HandedOut}
use mars.Pages.Extend.{Or}
use mars.Pages.AddZone.{zones_with, Added, add_zone-Added}
use mars.Pages.Reuse.{Restored, alloc_pages-free_pages}
use mars.Pages.Coalesce.{Coalesced}
use mars.Pages.Zones.{free_pages-Given}
use mars.Pages.History.{fresh, added, allocated, Sound, Addable, Reached-Sound}
use mars.Pages.Misuse.{free_pages-twice}

abbrev one_zone : PageAllocator
one_zone = add_zone 16384 3 1 new

abbrev IsOnly : ℕ → Type 0
IsOnly = Or (λ z. ⊥) 32736

abbrev only_zones : ℕ → Zone
only_zones = zones_with 16384 3 1 new

only_zone :
    (z : ℕ)
    → IsOnly z
    → only_zones z ≡ record { meta_array = 16384; data_base = 32768; total_pages = 3; next = 0 }
unfolding ℕ_discrete
only_zone z zone = elim zone [ inl n ↦ absurd n | inr s ↦ ap only_zones s ]

IsOnly-Apart : Apart only_zones IsOnly
IsOnly-Apart = record {
  metas = λ z z' k k' page page' e. (
    same z z' page.0 page'.0,
    omega (
      arith,
      e,
      ap (λ x. x.meta_array) (only_zone z page.0),
      ap (λ x. x.meta_array) (only_zone z' page'.0),
    ),
  );
  addresses = λ z z' k k' page page' e. (
    same z z' page.0 page'.0,
    omega (
      arith,
      e,
      ap (λ x. x.data_base) (only_zone z page.0),
      ap (λ x. x.data_base) (only_zone z' page'.0),
    ),
  );
  not_null = λ z k page e. absurd (omega (arith, e, ap (λ x. x.data_base) (only_zone z page.0)));
}
  where
    same : (z z' : ℕ) → IsOnly z → IsOnly z' → z ≡ z'
    same z z' zone zone' = elim zone [
      | inl n ↦ absurd n
      | inr s ↦ elim zone' [ inl n ↦ absurd n | inr s' ↦ s ∙ sym s' ]
    ]

only-Addable : Addable (λ z. ⊥) 16384 3 1 new
only-Addable = record {
  fresh = λ n. n;
  some_reserved = omega arith;
  aligned = refl;
  apart = IsOnly-Apart;
}

IsOnly-Sound : Sound IsOnly (32736 ∷ []) one_zone
IsOnly-Sound = Reached-Sound IsOnly (32736 ∷ []) one_zone (added fresh 16384 3 1 only-Addable)

-- The pages of a range of four: one for the metadata, two in a block of order 1, and one.
add_range_four : add_range 3 16384 81920 new ≡ done one_zone
unfolding add_range reserve reserve_loop needed_reserved
add_range_four = refl

abbrev one_used : PageAllocator
one_used = (alloc_pages 0 one_zone).1

alloc_one : (alloc_pages 0 one_zone).0 ≡ 65536
unfolding alloc_pages first_free take_pages add_zone carve give_block mark fill push_block pop_block
    split carve_order trailing_zeros ilog2 ℕ_discrete
alloc_one = refl

used_page : HandedOut IsOnly 0 32736 2 one_used
unfolding alloc_pages first_free take_pages add_zone carve give_block mark fill push_block pop_block
    split carve_order trailing_zeros ilog2 ℕ_discrete
used_page = record {
  zone_ok = inr refl;
  small = omega arith;
  aligned = (2, refl);
  inside = omega arith;
  kind = inl refl;
  pages = λ j w.
      let here : j ≡ 2 = omega (arith, w.0, w.1) in
      (ap one_used.metadata (ap (λ x. 16384 + x) here), λ n. n);
}

used-Sound : Sound IsOnly (32736 ∷ []) one_used
used-Sound =
    Reached-Sound IsOnly (32736 ∷ []) one_used (allocated (added fresh 16384 3 1 only-Addable) 0)

Reached-Sound_example : Sound IsOnly (32736 ∷ []) one_used
Reached-Sound_example =
    Reached-Sound IsOnly (32736 ∷ []) one_used (allocated (added fresh 16384 3 1 only-Addable) 0)

alloc_pages-outcome_example :
    ((alloc_pages 0 one_zone ≡ (0, one_zone))
      × ((o : ℕ) → 0 ≤ o → o < 11 → one_zone.free_area o ≡ 0))
    ⊎ ((0 < 11) × Allocated IsOnly 0 one_zone (alloc_pages 0 one_zone).0 (alloc_pages 0 one_zone).1)
alloc_pages-outcome_example = alloc_pages-outcome 0 one_zone IsOnly-Sound.apart IsOnly-Sound.inv

alloc_pages-free_pages_example :
    (a'' : PageAllocator) × (free_pages 1 (alloc_pages 0 one_zone).0 (alloc_pages 0 one_zone).1
      ≡ done a'')
    × Restored IsOnly one_zone a''
alloc_pages-free_pages_example =
    alloc_pages-free_pages 1 0 (32736 ∷ []) one_zone IsOnly-Sound.apart IsOnly-Sound.inv
      IsOnly-Sound.listed (omega arith) λ e. absurd (omega (arith, e, alloc_one))

free_pages-Given_example :
    (a' : PageAllocator) × (free_pages 1 (page_address one_used.zones 32736 2) one_used ≡ done a')
    × Given IsOnly 32736 2 0 one_used a'
    × Coalesced one_used.zones a'.metadata 32736 2 0
free_pages-Given_example =
    free_pages-Given 1 0 32736 2 (32736 ∷ []) one_used used-Sound.apart used-Sound.inv
      used-Sound.listed (omega arith) used_page

free_pages-twice_example :
    (a' : PageAllocator) × (free_pages 1 (page_address one_used.zones 32736 2) one_used ≡ done a')
    × (free_pages 1 (page_address one_used.zones 32736 2) a' ≡ panic)
free_pages-twice_example =
    free_pages-twice 1 0 32736 2 (32736 ∷ []) one_used used-Sound.apart used-Sound.inv
      used-Sound.listed (omega arith) used_page

empty-Sound : Sound (λ z. ⊥) [] new
empty-Sound = Reached-Sound (λ z. ⊥) [] new fresh

add_zone-Added_example : Added (λ z. ⊥) 32736 3 [] new (add_zone 16384 3 1 new)
add_zone-Added_example =
    add_zone-Added 16384 3 1 [] new empty-Sound.inv empty-Sound.listed (λ n. n) (omega arith) refl
      IsOnly-Apart

max_address-Highest_example :
    (m : ℕ) × (max_address 2 one_zone ≡ done m) × Highest one_zone.zones (32736 ∷ []) 0 m
max_address-Highest_example =
    max_address-Highest 2 (32736 ∷ []) one_zone IsOnly-Sound.listed (omega arith)
