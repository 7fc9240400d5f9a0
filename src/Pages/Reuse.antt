-- ===== src/Pages/Reuse.antt =====
-- klib/src/pm/page/mod.rs: `free_pages` after `alloc_pages`.
use mars.Prelude.{
  ℕ, subst, zero, suc, ◌+◌, ◌-◌, ◌^◌, ◌≤◌, ◌<◌, ◌≡◌, refl, sym, ap, ◌∙◌, ◌≢◌, inl, inr, List, arith,
  leb, Bool-cases, Option-cases, length,
}
use mars.Pages.Reserve.{done}
use mars.Pages.Memory.{PageAllocator, page_address, mark, pop_block, push_block}
use mars.Pages.Buddy.{free_pages, alloc_pages, take_pages, split, give_block, first_free}
use mars.Pages.Invariant.{Page, Apart, value, Whole}
use mars.Pages.Regions.{Nothing, InvOf}
use mars.Pages.Alloc.{Allocated, alloc_pages-outcome}
use mars.Pages.Free.{Freed}
use mars.Pages.Merge.{Given}
use mars.Pages.Release.{HandedOut}
use mars.Pages.Settle.{dec_InBlock}
use mars.Pages.Zones.{Listed, free_pages-Given, Listed-same}

pub split-zone_head :
    (left target z k : ℕ) (a : PageAllocator) → (split left target z k a).zone_head ≡ a.zone_head
unfolding split give_block mark push_block
split-zone_head zero target z k a = refl
split-zone_head (suc left) target z k a =
    split-zone_head left target z k (give_block (target + left) z (k + 2 ^ (target + left)) a)

pub alloc_pages-zone_head :
    (target : ℕ) (a : PageAllocator) → (alloc_pages target a).1.zone_head ≡ a.zone_head
unfolding alloc_pages take_pages mark pop_block
alloc_pages-zone_head target a = elim (Bool-cases (leb 11 target)) [
  | inl large ↦ rw large refl
  | inr small ↦ elim (Option-cases (first_free (11 - target) target a.free_area)) [
    | inl nothing ↦ rw (small, nothing) refl
    | inr (o, found) ↦ rw (small, found) (split-zone_head (o - target) target _ _ _)
  ]
]

module _ {IsZone : ℕ → Type 0} (target pages : ℕ) (zs : List ℕ) (a a' : PageAllocator)
    (got : Allocated IsZone target a pages a') where
  block-HandedOut : target < 11 → HandedOut IsZone target got.z got.k a'
  block-HandedOut small =
      subst (λ zones. Whole zones IsZone Nothing a'.metadata target got.z got.k target)
        (sym got.same_zones)
        (record {
          zone_ok = got.zone_ok;
          small = small;
          aligned = got.aligned;
          inside = got.fits;
          kind = inl refl;
          pages = λ j w. (got.now_used j w, λ n. n);
        })

-- Each page is as it was: a used page has its byte, a free page is free.
pub record Restored (IsZone : ℕ → Type 0) (a a'' : PageAllocator) : Type 0 where
  pub inv : InvOf IsZone Nothing a''
  pub same_zones : a''.zones ≡ a.zones
  pub used :
      (z j : ℕ)
      → Page a.zones IsZone z j
      → value a.zones IsZone a.metadata z j < 128
      → value a.zones IsZone a''.metadata z j ≡ value a.zones IsZone a.metadata z j
  pub free :
      (z j : ℕ)
      → Page a.zones IsZone z j
      → 128 ≤ value a.zones IsZone a.metadata z j
      → 128 ≤ value a.zones IsZone a''.metadata z j

restored :
    {IsZone : ℕ → Type 0} (target pages : ℕ) (a a' a'' : PageAllocator)
    (got : Allocated IsZone target a pages a')
    → Given IsZone got.z got.k target a' a''
    → Restored IsZone a a''
restored {IsZone} target pages a a' a'' got given =
    let freed : Freed a.zones IsZone a'.metadata a''.metadata got.z got.k target =
      subst (λ zones. Freed zones IsZone a'.metadata a''.metadata got.z got.k target) got.same_zones
        given.freed in
    record {
      inv = given.inv;
      same_zones = given.same_zones ∙ got.same_zones;
      used = λ z j page lt.
          let kept = got.keeps z j page lt in
          freed.keeps z j page (omega (arith, kept, lt)) (λ (s, w).
            absurd (
              omega
                (arith, lt, got.were_free j w, ap (λ y. value a.zones IsZone a.metadata y j) s)))
          ∙ kept;
      free = λ z j page ge. elim (dec_InBlock got.z got.k target z j) [
        | yes (s, w) ↦
            subst (λ y. 128 ≤ value a.zones IsZone a''.metadata y j) (sym s) (freed.free j w)
        | no out ↦ freed.stays z j page (got.others z j page ge out)
      ];
    }

-- `free_pages` undoes `alloc_pages`. When the allocator keeps the invariant and `alloc_pages` does not
-- return null, `free_pages` of what it returned ends without a panic, the invariant holds again, and
-- each page is used or free as it was before, the used ones with the same byte.
pub alloc_pages-free_pages :
    {IsZone : ℕ → Type 0} (fuel target : ℕ) (zs : List ℕ) (a : PageAllocator)
    → Apart a.zones IsZone
    → InvOf IsZone Nothing a
    → Listed IsZone a zs
    → length zs ≤ fuel
    → (alloc_pages target a).0 ≢ 0
    → (a'' : PageAllocator) × (free_pages fuel (alloc_pages target a).0 (alloc_pages target a).1
        ≡ done a'')
      × Restored IsZone a a''
alloc_pages-free_pages {IsZone} fuel target zs a apart inv listed enough ne =
    let pages = (alloc_pages target a).0 in
    let a' = (alloc_pages target a).1 in
    elim (alloc_pages-outcome target a apart inv) [
      | inl (null, _) ↦ absurd (ne (ap (λ r. r.0) null))
      | inr (small, got) ↦
          let (a'', freed, given, _) =
            free_pages-Given fuel target got.z got.k zs a'
              (subst (λ zones. Apart zones IsZone) (sym got.same_zones) apart) got.inv
              (Listed-same a' got.same_zones (alloc_pages-zone_head target a) listed) enough
              (block-HandedOut target pages zs a a' got small) in
          let here : page_address a'.zones got.z got.k ≡ pages =
            ap (λ zones. page_address zones got.z got.k) got.same_zones ∙ sym got.address in
          (
            a'',
            subst (λ p. free_pages fuel p a' ≡ done a'') here freed,
            restored target pages a a' a'' got given,
          )
    ]
