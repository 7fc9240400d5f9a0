-- ===== src/Paging/Release.antt =====
-- klib/src/pm/page/mapper.rs: `unmap_region` unmaps its pages and no others.
use mars.Prelude.{
  ℕ, subst, zero, suc, ◌+◌, ◌*◌, ◌/◌, ◌%◌, ◌^◌, ◌≤◌, ◌<◌, ◌≡◌, refl, ap, ◌∙◌, ◌≢◌, ◌⊎◌, false, not,
  ◌||◌, none, some, arith, ℕ_discrete, ◌==◌, if◌then◌else◌,
}
use mars.Pages.Requests.{AddressTranslator}
use mars.Paging.Tables.{
  Tte, TableAllocator, Attributes, Memory, map_region, unmap_page, unmap_each, unmap_region,
}
use mars.Paging.Laws.{IsTte, IsAllocator}
use mars.Paging.Walk.{path, walk, Inv}
use mars.Paging.Unmap.{unmap_page-Unmaps}
use mars.Paging.Region.{map_region-maps}
use mars.Paging.Paths.{path-apart}

module _ {E S : Type 0} (t : Tte E) (al : TableAllocator S) (tr : AddressTranslator) (root : ℕ)
    (InUse : S → ℕ → Type 0) (Room : S → ℕ) (ok : IsTte t)
    (al_ok : IsAllocator al tr InUse Room) where
  -- After the loop the pages from `i` on are nowhere, also those that were not mapped.
  record Cleared (m m' : Memory E S) (n i va : ℕ) : Type 0 where
    inv : Inv t tr root InUse m'
    gone : (j : ℕ) → i ≤ j → j < i + n → walk t tr root m' (va + j * 16384) ≡ none
    others :
        (va' : ℕ)
        → ((j : ℕ) → i ≤ j → j < i + n → path t va' ≢ path t (va + j * 16384))
        → walk t tr root m' va' ≡ walk t tr root m va'

  unmap_each-Cleared :
      (n i va : ℕ) (m : Memory E S)
      → Inv t tr root InUse m
      → ((j k : ℕ) → i ≤ j → j < k → k < i + n → path t (va + j * 16384) ≢ path t (va + k * 16384))
      → Cleared m (unmap_each t al tr n i root va m) n i va
  unfolding unmap_each
  unmap_each-Cleared zero i va m inv ne = record {
    inv = inv;
    gone = λ j l k. absurd (omega arith);
    others = λ va' away. refl;
  }
  unmap_each-Cleared (suc n) i va m inv ne =
      let first = unmap_page-Unmaps t al tr root InUse Room ok al_ok (va + i * 16384) m inv in
      let rest =
        unmap_each-Cleared n (i + 1) va (unmap_page t al tr root (va + i * 16384) m) first.inv
          (λ a b l k r. ne a b (omega arith) k (omega arith)) in
      record {
        inv = rest.inv;
        gone = λ j l k. elim (ℕ_discrete i j) [
          | no later ↦ rest.gone j (omega arith) (omega arith)
          | yes now ↦
              subst
                (λ x.
                  walk t tr root
                    (unmap_each t al tr n (i + 1) root va
                      (unmap_page t al tr root (va + i * 16384) m))
                    (va + x * 16384)
                  ≡ none)
                now
                (rest.others (va + i * 16384)
                    (λ j l k. ne i j (omega arith) (omega arith) (omega arith))
                  ∙ first.gone)
        ];
        others = λ va' away.
            rest.others va' (λ j l k. away j (omega arith) (omega arith))
            ∙ first.others va' (away i (omega arith) (omega arith));
      }

  -- Unmapping a region of whole pages returns; no page of it has an entry then, and a page outside of
  -- the region, in the same range of 2 ^ 48 addresses, is where it was. The region lies inside the range.
  pub unmap_region-unmaps :
      (va size : ℕ) (m : Memory E S)
      → Inv t tr root InUse m
      → va % 16384 ≡ 0
      → size % 16384 ≡ 0
      → va % 2 ^ 48 + size ≤ 2 ^ 48
      → (m' : Memory E S) × (unmap_region t al tr root va size m ≡ some m')
        × Inv t tr root InUse m'
        × ((j : ℕ) → j < size / 16384 → walk t tr root m' (va + j * 16384) ≡ none)
        × ((va' : ℕ)
            → va' % 16384 ≡ 0
            → va' / 2 ^ 48 ≡ va / 2 ^ 48
            → (va' < va) ⊎ (va + size ≤ va')
            → walk t tr root m' va' ≡ walk t tr root m va')
  unfolding unmap_region
  unmap_region-unmaps va size m inv va0 size0 va_in =
      let n = size / 16384 in
      let test : (not (va % 16384 == 0) || not (size % 16384 == 0)) ≡ false = ground arith in
      let all = unmap_each-Cleared n 0 va m inv (λ a b l r s e. absurd (
        omega (
          arith,
          path-apart t ok (va + a * 16384) (va + b * 16384) (omega arith) (omega arith) e,
        ))) in
      (
        unmap_each t al tr n 0 root va m,
        ap (λ b. if b then none else some (unmap_each t al tr n 0 root va m)) test,
        all.inv,
        (λ j k. all.gone j (omega arith) (omega arith)),
        (λ va' low top out. all.others va' (λ a l r e.
            absurd
              (omega (arith, path-apart t ok va' (va + a * 16384) (omega arith) (omega arith) e)))),
      )

  -- In well-formed page tables, mapping a region of whole pages, one at least, and unmapping it return;
  -- the pages of the region are then nowhere and every page outside of it, in the same range of 2 ^ 48
  -- addresses, is where it was before. The allocator has room for three tables a page, and both regions
  -- are page-aligned and lie inside such a range.
  pub map_region-unmap_region :
      (pa va size : ℕ) (at : Attributes) (m : Memory E S)
      → Inv t tr root InUse m
      → 3 * (size / 16384) ≤ Room m.pool
      → pa % 16384 ≡ 0
      → va % 16384 ≡ 0
      → size % 16384 ≡ 0
      → 16384 ≤ size
      → pa + size ≤ 2 ^ 48
      → va % 2 ^ 48 + size ≤ 2 ^ 48
      → (m1 m2 : Memory E S) × (map_region t al tr root pa va size at m ≡ some m1)
        × (unmap_region t al tr root va size m1 ≡ some m2)
        × ((j : ℕ) → j < size / 16384 → walk t tr root m2 (va + j * 16384) ≡ none)
        × ((va' : ℕ)
            → va' % 16384 ≡ 0
            → va' / 2 ^ 48 ≡ va / 2 ^ 48
            → (va' < va) ⊎ (va + size ≤ va')
            → walk t tr root m2 va' ≡ walk t tr root m va')
  map_region-unmap_region pa va size at m inv room pa0 va0 size0 some_page pa_in va_in =
      let (m1, e1, inv1, mapped, same1) =
        map_region-maps t al tr root InUse Room ok al_ok pa va size at m inv room pa0 va0 size0
          some_page pa_in va_in in
      let (m2, e2, inv2, gone, same2) = unmap_region-unmaps va size m1 inv1 va0 size0 va_in in
      (m1, m2, e1, e2, gone, (λ va' low top out. same2 va' low top out ∙ same1 va' low top out))
