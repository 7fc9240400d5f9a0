-- ===== src/Paging/Unmap.antt =====
-- klib/src/pm/page/mapper.rs: `unmap_page` unmaps one page and no other.
use mars.Prelude.{
  ℕ, ◌≤◌, ◌≡◌, refl, ap, ◌∙◌, ◌≢◌, Bool, true, false, not, Option, none, some, List, [], ◌∷◌, arith,
  if◌then◌else◌, length,
}
use mars.Pages.Requests.{AddressTranslator}
use mars.Paging.Tables.{
  Tte, TableAllocator, Memory, child, clear_entry, cleared, unlink_table, is_table_empty, unmap_in,
  unmap_page,
}
use mars.Paging.Laws.{IsTte, IsAllocator, cleared_valid}
use mars.Paging.Walk.{path, through, leaf, table_at, entry_at, walk, Inv}
use mars.Paging.Paths.{path-Bounded}
use mars.Paging.Page.{page_write-Inv, page_write_self, page_write_other, page_write_tables}
use mars.Paging.Unlink.{unlink-Inv, unlink_same, unlink_tables}

-- A property of both branches of `if not b`.
by_test :
    {M : Type 0} (P : M → Type 0) (b : Bool) (x y : M)
    → (b ≡ false → P x)
    → (b ≡ true → P y)
    → P (if not b then x else y)
by_test P true x y f g = g refl
by_test P false x y f g = f refl

-- A property of both branches of a match on where an entry leads.
by_child :
    {M : Type 0} (P : M → Type 0) (o : Option ℕ) (x : M) (f : ℕ → M)
    → (o ≡ none → P x)
    → ((l : ℕ) → o ≡ some l → P (f l))
    → P (elim o [ none ↦ x | some l ↦ f l ])
by_child P none x f g h = g refl
by_child P (some l) x f g h = h l refl

module _ {E S : Type 0} (t : Tte E) (al : TableAllocator S) (tr : AddressTranslator) (root : ℕ)
    (InUse : S → ℕ → Type 0) (Room : S → ℕ) where
  -- The page at `va` is nowhere, and the other pages are where they were.
  pub record Unmaps (m : Memory E S) (va : ℕ) (m' : Memory E S) : Type 0 where
    pub inv : Inv t tr root InUse m'
    pub gone : walk t tr root m' va ≡ none
    pub others : (va' : ℕ) → path t va' ≢ path t va → walk t tr root m' va' ≡ walk t tr root m va'

  nothing-Unmaps :
      (m : Memory E S) (va : ℕ) → Inv t tr root InUse m → walk t tr root m va ≡ none → Unmaps m va m
  nothing-Unmaps m va inv e = record { inv = inv; gone = e; others = λ va' ne. refl }

  then-Unmaps :
      {m m1 m2 : Memory E S} {va : ℕ}
      → Unmaps m va m1
      → Inv t tr root InUse m2
      → ((va' : ℕ) → walk t tr root m2 va' ≡ walk t tr root m1 va')
      → Unmaps m va m2
  then-Unmaps {va} u inv same = record {
    inv = inv;
    gone = same va ∙ u.gone;
    others = λ va' ne. same va' ∙ u.others va' ne;
  }

  root_there : (m : Memory E S) → table_at t tr root m [] ≡ some root
  unfolding table_at
  root_there m = refl

  module _ (ok : IsTte t) (al_ok : IsAllocator al tr InUse Room) (va : ℕ) where
    -- The release of an empty table keeps what is unmapped.
    release-Unmaps :
        {m m1 : Memory E S} (ps : List ℕ) (p i c : ℕ)
        → length ps ≤ 2
        → table_at t tr root m1 ps ≡ some p
        → table_at t tr root m1 (i ∷ ps) ≡ some c
        → is_table_empty t (m1.tables c) ≡ true
        → Unmaps m va m1
        → Unmaps m va (unlink_table t al tr c p i m1)
    unfolding walk
    release-Unmaps ps p i c short here there empty u =
        then-Unmaps u (unlink-Inv t al tr root InUse Room ok al_ok u.inv ps p i c short here there)
          (λ va'.
            unlink_same t al tr root InUse Room ok al_ok u.inv ps p i c short here there empty
              (path t va') refl (path-Bounded t ok va'))

    module _ {m : Memory E S} (inv : Inv t tr root InUse m) (l1 l2 l3 : ℕ)
        (e1 : table_at t tr root m (t.calculate_index va 0 ∷ []) ≡ some l1)
        (e2 : table_at t tr root m (t.calculate_index va 1 ∷ t.calculate_index va 0 ∷ []) ≡ some l2)
        (e3 : table_at t tr root m
            (t.calculate_index va 2 ∷ t.calculate_index va 1 ∷ t.calculate_index va 0 ∷ [])
          ≡ some l3) where
      clear-Unmaps : Unmaps m va (clear_entry t al tr l3 (t.calculate_index va 3) m)
      unfolding walk
      clear-Unmaps =
          let i3 = t.calculate_index va 3 in
          let e = cleared t (m.tables l3 i3) in
          let ps : List ℕ =
            t.calculate_index va 2 ∷ t.calculate_index va 1 ∷ t.calculate_index va 0 ∷ [] in
          record {
            inv = page_write-Inv t tr root InUse inv ps l3 i3 e refl e3;
            gone =
                page_write_self t tr root InUse inv ps l3 i3 e refl e3
                ∙ (rw (cleared_valid ok (m.tables l3 i3)) refl);
            others = λ va' ne.
                page_write_other t tr root InUse inv ps l3 i3 e refl e3 (path t va') refl ne;
          }

      clear_tables :
          (is : List ℕ)
          → length is ≤ 3
          → table_at t tr root (clear_entry t al tr l3 (t.calculate_index va 3) m) is
            ≡ table_at t tr root m is
      clear_tables is l =
          page_write_tables t tr root InUse inv
            (t.calculate_index va 2 ∷ t.calculate_index va 1 ∷ t.calculate_index va 0 ∷ []) l3
            (t.calculate_index va 3) _ refl e3 is l

      absent :
          t.is_valid (m.tables l3 (t.calculate_index va 3)) ≡ false → walk t tr root m va ≡ none
      unfolding walk entry_at
      absent v = ap (through (leaf t) m.tables (t.calculate_index va 3)) e3 ∙ (rw v refl)

      unmap_in-Unmaps : Unmaps m va (unmap_in t al tr root l1 l2 l3 va m)
      unfolding unmap_in
      unmap_in-Unmaps =
          let i0 = t.calculate_index va 0 in
          let i1 = t.calculate_index va 1 in
          let i2 = t.calculate_index va 2 in
          let m3 = clear_entry t al tr l3 (t.calculate_index va 3) m in
          let m2 = unlink_table t al tr l3 l2 i2 m3 in
          let m1 = unlink_table t al tr l2 l1 i1 m2 in
          let t3 = clear_tables in
          let keep2 =
            unlink_tables t al tr root InUse Room ok al_ok clear-Unmaps.inv (i1 ∷ i0 ∷ []) l2 i2 l3
              (omega arith) (t3 (i1 ∷ i0 ∷ []) (omega arith) ∙ e2) in
          by_test (Unmaps m va) (t.is_valid (m.tables l3 (t.calculate_index va 3))) m _
            (λ v. nothing-Unmaps m va inv (absent v))
            (λ v.
              by_test (Unmaps m va) (is_table_empty t (m3.tables l3)) m3 _ (λ more. clear-Unmaps)
                (λ empty3.
                  let u2 : Unmaps m va m2 =
                    release-Unmaps (i1 ∷ i0 ∷ []) l2 i2 l3 (omega arith)
                      (t3 (i1 ∷ i0 ∷ []) (omega arith) ∙ e2)
                      (t3 (i2 ∷ i1 ∷ i0 ∷ []) (omega arith) ∙ e3) empty3 clear-Unmaps in
                  let to_l1 : table_at t tr root m2 (i0 ∷ []) ≡ some l1 =
                    keep2 (i0 ∷ []) (omega arith) ∙ t3 (i0 ∷ []) (omega arith) ∙ e1 in
                  let to_l2 : table_at t tr root m2 (i1 ∷ i0 ∷ []) ≡ some l2 =
                    keep2 (i1 ∷ i0 ∷ []) (omega arith) ∙ t3 (i1 ∷ i0 ∷ []) (omega arith) ∙ e2 in
                  by_test (Unmaps m va) (is_table_empty t (m2.tables l2)) m2 _ (λ more. u2)
                    (λ empty2.
                      let u1 : Unmaps m va m1 =
                        release-Unmaps (i0 ∷ []) l1 i1 l2 (omega arith) to_l1 to_l2 empty2 u2 in
                      let keep1 =
                        unlink_tables t al tr root InUse Room ok al_ok u2.inv (i0 ∷ []) l1 i1 l2
                          (omega arith) to_l1 in
                      by_test (Unmaps m va) (is_table_empty t (m1.tables l1)) m1 _ (λ more. u1)
                        (λ empty1.
                          release-Unmaps [] root i0 l1 (omega arith) (root_there m1)
                            (keep1 (i0 ∷ []) (omega arith) ∙ to_l1) empty1 u1))))

    -- Where a table is missing on the way, the address has no entry.
    cut_short :
        (m : Memory E S)
        → (table_at t tr root m
              (t.calculate_index va 2 ∷ t.calculate_index va 1 ∷ t.calculate_index va 0 ∷ [])
            ≡ none)
        → walk t tr root m va ≡ none
    unfolding walk entry_at
    cut_short m e = ap (through (leaf t) m.tables (t.calculate_index va 3)) e

    step :
        (m : Memory E S) (ps : List ℕ) (i : ℕ) (o : Option ℕ)
        → table_at t tr root m ps ≡ o
        → table_at t tr root m (i ∷ ps) ≡ through (child t tr) m.tables i o
    unfolding table_at
    step m ps i o e = ap (through (child t tr) m.tables i) e

    -- In well-formed page tables, unmapping a page leaves its address without an entry, every other page
    -- where it was, and the tables well formed.
    pub unmap_page-Unmaps :
        (m : Memory E S) → Inv t tr root InUse m → Unmaps m va (unmap_page t al tr root va m)
    unfolding unmap_page
    unmap_page-Unmaps m inv =
        let i0 = t.calculate_index va 0 in
        let i1 = t.calculate_index va 1 in
        let i2 = t.calculate_index va 2 in
        by_child (Unmaps m va) (child t tr (m.tables root i0)) m _
          (λ e.
            let at0 = step m [] i0 (some root) (root_there m) ∙ e in
            nothing-Unmaps m va inv
              (cut_short m (step m (i1 ∷ i0 ∷ []) i2 none (step m (i0 ∷ []) i1 none at0))))
          (λ l1 e.
            let at1 = step m [] i0 (some root) (root_there m) ∙ e in
            by_child (Unmaps m va) (child t tr (m.tables l1 i1)) m _
              (λ e'. nothing-Unmaps m va inv (
                cut_short m
                  (step m (i1 ∷ i0 ∷ []) i2 none (step m (i0 ∷ []) i1 (some l1) at1 ∙ e'))))
              (λ l2 e'.
                let at2 = step m (i0 ∷ []) i1 (some l1) at1 ∙ e' in
                by_child (Unmaps m va) (child t tr (m.tables l2 i2)) m _
                  (λ e''.
                    nothing-Unmaps m va inv
                      (cut_short m (step m (i1 ∷ i0 ∷ []) i2 (some l2) at2 ∙ e'')))
                  (λ l3 e''.
                    unmap_in-Unmaps inv l1 l2 l3 at1 at2
                      (step m (i1 ∷ i0 ∷ []) i2 (some l2) at2 ∙ e''))))
