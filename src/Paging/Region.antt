-- ===== src/Paging/Region.antt =====
-- klib/src/pm/page/mapper.rs: `map_region` maps its pages and no others.
use mars.Paging.Paths.{path-apart}
use mars.Prelude.{
  ℕ, subst, zero, suc, ◌+◌, ◌*◌, ◌/◌, ◌%◌, ◌^◌, ◌≤◌, ◌<◌, ◌≡◌, refl, ap, ◌∙◌, ◌≢◌, some, arith,
  ℕ_discrete, ◌⊎◌, not, ◌==◌, ◌||◌, ltb, false, if◌then◌else◌, none,
}
use mars.Pages.Requests.{AddressTranslator}
use mars.Paging.Tables.{
  Tte, TableAllocator, Attributes, Memory, page_entry, map_page, map_each, map_region,
}
use mars.Paging.Laws.{IsTte, IsAllocator, Fits, Leads}
use mars.Paging.Walk.{path, walk, Inv}
use mars.Paging.Map.{map_page-Maps}

module _ {E S : Type 0} (t : Tte E) (al : TableAllocator S) (tr : AddressTranslator) (root : ℕ)
    (InUse : S → ℕ → Type 0) (Room : S → ℕ) where
  -- The page at `va` is at `pa`, with the attributes.
  abbrev pub MappedTo : Memory E S → ℕ → ℕ → Attributes → Type 0
  MappedTo m pa va at =
      (e : E) × (walk t tr root m va ≡ some (page_entry t pa at e))
      × Leads t (page_entry t pa at e) pa

  module _ (ok : IsTte t) (al_ok : IsAllocator al tr InUse Room) where
    -- After the loop the pages from `i` on are mapped, and the others are where they were.
    record Filled (m m' : Memory E S) (n i pa va : ℕ) (at : Attributes) : Type 0 where
      inv : Inv t tr root InUse m'
      mapped : (j : ℕ) → i ≤ j → j < i + n → MappedTo m' (pa + j * 16384) (va + j * 16384) at
      others :
          (va' : ℕ)
          → ((j : ℕ) → i ≤ j → j < i + n → path t va' ≢ path t (va + j * 16384))
          → walk t tr root m' va' ≡ walk t tr root m va'

    map_each-Filled :
        (n i pa va : ℕ) (at : Attributes) (m : Memory E S)
        → Inv t tr root InUse m
        → 3 * n ≤ Room m.pool
        → ((j : ℕ) → i ≤ j → j < i + n → Fits (pa + j * 16384))
        → ((j k : ℕ)
            → i ≤ j
            → j < k
            → k < i + n
            → path t (va + j * 16384) ≢ path t (va + k * 16384))
        → Filled m (map_each t al tr n i root pa va at m) n i pa va at
    unfolding map_each
    map_each-Filled zero i pa va at m inv room fits ne = record {
      inv = inv;
      mapped = λ j l k. absurd (omega arith);
      others = λ va' away. refl;
    }
    map_each-Filled (suc n) i pa va at m inv room fits ne =
        let m1 = map_page t al tr root (pa + i * 16384) (va + i * 16384) at m in
        let first =
          map_page-Maps t al tr root InUse Room ok al_ok m inv (pa + i * 16384) (va + i * 16384) at
            (fits i (omega arith) (omega arith)) (omega arith) in
        let rest =
          map_each-Filled n (i + 1) pa va at m1 first.inv (omega (arith, first.left))
            (λ j l k. fits j (omega arith) (omega arith))
            (λ a b l k r. ne a b (omega arith) k (omega arith)) in
        record {
          inv = rest.inv;
          mapped = λ j l k. elim (ℕ_discrete i j) [
            | no later ↦ rest.mapped j (omega arith) (omega arith)
            | yes now ↦
                subst
                  (λ x.
                    MappedTo (map_each t al tr n (i + 1) root pa va at m1) (pa + x * 16384)
                      (va + x * 16384) at)
                  now
                  (
                    first.entry,
                    rest.others (va + i * 16384)
                          (λ j l k. ne i j (omega arith) (omega arith) (omega arith))
                        ∙ first.mapped,
                    first.leads,
                  )
          ];
          others = λ va' away.
              rest.others va' (λ j l k. away j (omega arith) (omega arith))
              ∙ first.others va' (away i (omega arith) (omega arith));
        }

    -- In well-formed page tables, mapping a region of whole pages, one at least, returns; page `j` of it is
    -- then at page `j` of the physical region, a page outside of the region, in the same range of 2 ^ 48
    -- addresses, is where it was, and the tables are well formed. The allocator has room for three tables
    -- a page, and both regions are page-aligned and lie inside such a range.
    pub map_region-maps :
        (pa va size : ℕ) (at : Attributes) (m : Memory E S)
        → Inv t tr root InUse m
        → 3 * (size / 16384) ≤ Room m.pool
        → pa % 16384 ≡ 0
        → va % 16384 ≡ 0
        → size % 16384 ≡ 0
        → 16384 ≤ size
        → pa + size ≤ 2 ^ 48
        → va % 2 ^ 48 + size ≤ 2 ^ 48
        → (m' : Memory E S) × (map_region t al tr root pa va size at m ≡ some m')
          × Inv t tr root InUse m'
          × ((j : ℕ) → j < size / 16384 → MappedTo m' (pa + j * 16384) (va + j * 16384) at)
          × ((va' : ℕ)
              → va' % 16384 ≡ 0
              → va' / 2 ^ 48 ≡ va / 2 ^ 48
              → (va' < va) ⊎ (va + size ≤ va')
              → walk t tr root m' va' ≡ walk t tr root m va')
    unfolding map_region
    map_region-maps pa va size at m inv room pa0 va0 size0 some_page pa_in va_in =
        let n = size / 16384 in
        let test : (not (va % 16384 == 0)
              || not (pa % 16384 == 0)
              || not (size % 16384 == 0)
              || ltb size 16384)
            ≡ false =
          ground arith in
        let all =
          map_each-Filled n 0 pa va at m inv room (λ j l k. (omega arith, omega arith))
            (λ a b l r s e. absurd (
              omega (
                arith,
                path-apart t ok (va + a * 16384) (va + b * 16384) (omega arith) (omega arith) e,
              ))) in
        (
          map_each t al tr n 0 root pa va at m,
          ap (λ b. if b then none else some (map_each t al tr n 0 root pa va at m)) test,
          all.inv,
          (λ j k. all.mapped j (omega arith) (omega arith)),
          (λ va' low top out. all.others va' (λ a l r e.
              absurd (
                omega
                  (arith, path-apart t ok va' (va + a * 16384) (omega arith) (omega arith) e)))),
        )
