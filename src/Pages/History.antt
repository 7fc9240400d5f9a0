-- ===== src/Pages/History.antt =====
-- klib/src/pm/page/mod.rs: a page allocator through any history of calls.
use mars.Pages.Ranks.{InList, InList-iff}
use mars.Prelude.{
  ℕ, subst, ◌%◌, ◌≤◌, ◌<◌, ◌≡◌, refl, sym, ◌∙◌, inl, inr, List, [], ◌∷◌, length, ◌↔◌,
}
use mars.Pages.Reserve.{done}
use mars.Pages.Memory.{PageAllocator, page_address}
use mars.Pages.Buddy.{new, add_zone, alloc_pages, free_pages}
use mars.Pages.Invariant.{Apart, FreePtr}
use mars.Pages.Regions.{Nothing, InvOf}
use mars.Pages.Alloc.{alloc_pages-outcome}
use mars.Pages.Release.{HandedOut}
use mars.Pages.Zones.{Listed, last, free_pages-Given, Listed-same}
use mars.Pages.Reuse.{alloc_pages-zone_head}
use mars.Pages.Extend.{Or}
use mars.Pages.AddZone.{zone_at, zones_with, add_zone-Added}

-- A range that may be added: aligned, with a page reserved at least, and beside the other zones.
pub record Addable (IsZone : ℕ → Type 0) (start usable reserved : ℕ) (a : PageAllocator)
    : Type 0 where
  pub fresh : ¬ IsZone (zone_at start reserved)
  pub some_reserved : 0 < reserved
  pub aligned : start % 16384 ≡ 0
  pub apart : Apart (zones_with start usable reserved a) (Or IsZone (zone_at start reserved))

-- The allocators that calls lead to, with their zones. Blocks are freed that have been handed out.
pub data Reached : (ℕ → Type 0) → List ℕ → PageAllocator → Type 1 where
  fresh : Reached (λ z. ⊥) [] new
  added :
      {IsZone : ℕ → Type 0} {zs : List ℕ} {a : PageAllocator}
      → Reached IsZone zs a
      → (start usable reserved : ℕ) → Addable IsZone start usable reserved a
      → Reached
          (Or IsZone (zone_at start reserved))
          (zone_at start reserved ∷ zs)
          (add_zone start usable reserved a)
  allocated :
      {IsZone : ℕ → Type 0} {zs : List ℕ} {a : PageAllocator}
      → Reached IsZone zs a
      → (target : ℕ) → Reached IsZone zs (alloc_pages target a).1
  freed :
      {IsZone : ℕ → Type 0} {zs : List ℕ} {a : PageAllocator}
      → Reached IsZone zs a
      → (fuel o z k : ℕ) (a' : PageAllocator) → length zs ≤ fuel
      → HandedOut IsZone o z k a
      → free_pages fuel (page_address a.zones z k) a ≡ done a'
      → Reached IsZone zs a'

pub record Sound (IsZone : ℕ → Type 0) (zs : List ℕ) (a : PageAllocator) : Type 0 where
  pub apart : Apart a.zones IsZone
  pub inv : InvOf IsZone Nothing a
  pub listed : Listed IsZone a zs
  pub on_lists :
      (o b : ℕ) → InList (a.free_area o) a.blocks b ↔ FreePtr a.zones IsZone Nothing a.metadata o b

-- The lists follow from the invariant.
with_lists :
    {IsZone : ℕ → Type 0} {zs : List ℕ} {a : PageAllocator}
    → Apart a.zones IsZone
    → InvOf IsZone Nothing a
    → Listed IsZone a zs
    → Sound IsZone zs a
with_lists apart inv listed = record {
  apart = apart;
  inv = inv;
  listed = listed;
  on_lists = λ o b. InList-iff apart inv o b;
}

new-Sound : Sound (λ z. ⊥) [] new
new-Sound =
    with_lists
      (record {
        metas = λ z z' k k' page. absurd page.0;
        addresses = λ z z' k k' page. absurd page.0;
        not_null = λ z k page. absurd page.0;
      })
      (record {
        tiles = λ z k page. absurd page.0;
        links = λ o z k f. absurd f.page.0;
        heads = λ o ne. absurd (ne refl);
        ranked = (λ b. 0, λ b ne prev_ne. absurd (prev_ne refl));
      })
      (record {
        chain = last;
        members = λ i e. cc;
        every = λ z zone. absurd zone;
        paged = λ z zone. absurd zone;
      })

alloc_pages-Sound :
    {IsZone : ℕ → Type 0} (target : ℕ) (zs : List ℕ) (a : PageAllocator)
    → Sound IsZone zs a
    → Sound IsZone zs (alloc_pages target a).1
alloc_pages-Sound {IsZone} target zs a s = elim (alloc_pages-outcome target a s.apart s.inv) [
  | inl (null, _) ↦ subst (λ r. Sound IsZone zs r.1) (sym null) s
  | inr (_, got) ↦
      with_lists (subst (λ zones. Apart zones IsZone) (sym got.same_zones) s.apart) got.inv (
        Listed-same (alloc_pages target a).1 got.same_zones (alloc_pages-zone_head target a)
          s.listed)
]

free_pages-Sound :
    {IsZone : ℕ → Type 0} (fuel o z k : ℕ) (zs : List ℕ) (a a' : PageAllocator)
    → Sound IsZone zs a
    → length zs ≤ fuel
    → HandedOut IsZone o z k a
    → free_pages fuel (page_address a.zones z k) a ≡ done a'
    → Sound IsZone zs a'
free_pages-Sound {IsZone} fuel o z k zs a a' s enough block e =
    let (b, frees, given, _) =
      free_pages-Given fuel o z k zs a s.apart s.inv s.listed enough block in
    let same : b ≡ a' = done-injective (sym frees ∙ e) in
    subst (λ x. Sound IsZone zs x) same
      (with_lists (subst (λ zones. Apart zones IsZone) (sym given.same_zones) s.apart) given.inv
        (Listed-same b given.same_zones given.same_head s.listed))
  where
    done-injective : {x y : PageAllocator} → done x ≡ done y → x ≡ y
    done-injective e = cc

-- Of every allocator that calls lead to, from an empty one on, when each range that is added is aligned
-- to pages, reserves a page and is apart from the other zones, and each block that is freed has been
-- handed out: each page of its zones lies in an aligned block, whose pages all have its order and are
-- all free or all used; what the list of an order holds, followed from its head by the `next` pointers,
-- is exactly the free blocks of that order; the lists are linked both ways, and their headers name the
-- zone and the page; no two pages share an address or a byte of metadata; and the zones are on one list.
pub Reached-Sound :
    (IsZone : ℕ → Type 0) (zs : List ℕ) (a : PageAllocator)
    → Reached IsZone zs a
    → Sound IsZone zs a
Reached-Sound IsZone zs a fresh = new-Sound
Reached-Sound IsZone zs a (added r start usable reserved ok) =
    let s = Reached-Sound _ _ _ r in
    let g =
      add_zone-Added start usable reserved _ _ s.inv s.listed ok.fresh ok.some_reserved ok.aligned
        ok.apart in
    with_lists g.apart g.inv g.listed
Reached-Sound IsZone zs a (allocated r target) =
    alloc_pages-Sound target zs _ (Reached-Sound _ _ _ r)
Reached-Sound IsZone zs a (freed r fuel o z k a' enough block e) =
    free_pages-Sound fuel o z k zs _ a' (Reached-Sound _ _ _ r) enough block e
