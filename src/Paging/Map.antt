-- ===== src/Paging/Map.antt =====
-- klib/src/pm/page/mapper.rs: `map_page` maps one page and no other.
use mars.Paging.Paths.{path-Bounded}
use mars.Prelude.{ℕ, ◌≡◌, refl, ◌∙◌, ◌≢◌, true, some, List, [], ◌∷◌, arith, ◌≤◌, ◌+◌}
use mars.Pages.Requests.{AddressTranslator}
use mars.Paging.Tables.{
  Tte, TableAllocator, Attributes, Memory, page_entry, next_table, last_table, map_page,
}
use mars.Paging.Laws.{IsTte, IsAllocator, Fits, Leads, page_entry-Leads}
use mars.Paging.Walk.{path, leaf, table_at, walk, Inv}
use mars.Paging.Steps.{Stepped}
use mars.Paging.Descend.{next_table-Stepped, last_table-Stepped}
use mars.Paging.Page.{page_write-Inv, page_write_self, page_write_other}

module _ {E S : Type 0} (t : Tte E) (al : TableAllocator S) (tr : AddressTranslator) (root : ℕ)
    (InUse : S → ℕ → Type 0) (Room : S → ℕ) where
  -- The page at `va` is at `pa` with the attributes, and the other pages are where they were.
  pub record Maps (m m' : Memory E S) (pa va : ℕ) (at : Attributes) : Type 0 where
    pub entry : E
    pub inv : Inv t tr root InUse m'
    pub left : Room m.pool ≤ 3 + Room m'.pool
    pub mapped : walk t tr root m' va ≡ some (page_entry t pa at entry)
    pub leads : Leads t (page_entry t pa at entry) pa
    pub others : (va' : ℕ) → path t va' ≢ path t va → walk t tr root m' va' ≡ walk t tr root m va'

  -- The tables on the way to an address, as `map_page` makes them.
  abbrev l1_table : ℕ → Memory E S → ℕ × Memory E S
  l1_table va m = next_table t al tr root (t.calculate_index va 0) m

  abbrev l2_table : ℕ → Memory E S → ℕ × Memory E S
  l2_table va m = next_table t al tr (l1_table va m).0 (t.calculate_index va 1) (l1_table va m).1

  abbrev l3_table : ℕ → Memory E S → ℕ × Memory E S
  l3_table va m = last_table t al tr (l2_table va m).0 (t.calculate_index va 2) (l2_table va m).1

  module _ (ok : IsTte t) (al_ok : IsAllocator al tr InUse Room) {m : Memory E S}
      (inv : Inv t tr root InUse m) (va : ℕ) (room : 3 ≤ Room m.pool) where
    l1-Stepped : Stepped t al tr root InUse Room m (t.calculate_index va 0 ∷ []) (l1_table va m)
    unfolding table_at
    l1-Stepped =
        next_table-Stepped t al tr root InUse Room ok al_ok m inv [] root (t.calculate_index va 0)
          (omega arith) (omega arith) refl

    l2-Stepped :
        Stepped t al tr root InUse Room
          (l1_table va m).1
          (t.calculate_index va 1 ∷ t.calculate_index va 0 ∷ [])
          (l2_table va m)
    l2-Stepped =
        next_table-Stepped t al tr root InUse Room ok al_ok (l1_table va m).1 l1-Stepped.inv
          (t.calculate_index va 0 ∷ []) (l1_table va m).0 (t.calculate_index va 1) (omega arith)
          (omega (arith, l1-Stepped.left)) l1-Stepped.there

    l3-Stepped :
        Stepped t al tr root InUse Room
          (l2_table va m).1
          (t.calculate_index va 2 ∷ t.calculate_index va 1 ∷ t.calculate_index va 0 ∷ [])
          (l3_table va m)
    l3-Stepped =
        last_table-Stepped t al tr root InUse Room ok al_ok (l2_table va m).1 l2-Stepped.inv
          (t.calculate_index va 1 ∷ t.calculate_index va 0 ∷ []) (l2_table va m).0
          (t.calculate_index va 2) (omega arith) (omega (arith, l1-Stepped.left, l2-Stepped.left))
          l2-Stepped.there

    walk_left : Room m.pool ≤ 3 + Room (l3_table va m).1.pool
    walk_left = omega (arith, l1-Stepped.left, l2-Stepped.left, l3-Stepped.left)

    -- The tables that are linked on the way change no translation.
    walk-l3_table : (va' : ℕ) → walk t tr root (l3_table va m).1 va' ≡ walk t tr root m va'
    unfolding walk
    walk-l3_table va' =
        l3-Stepped.same (path t va') refl (path-Bounded t ok va')
        ∙ l2-Stepped.same (path t va') refl (path-Bounded t ok va')
        ∙ l1-Stepped.same (path t va') refl (path-Bounded t ok va')

  module _ (ok : IsTte t) (al_ok : IsAllocator al tr InUse Room) (m : Memory E S)
      (inv : Inv t tr root InUse m) (pa va : ℕ) (at : Attributes) where
    pub map_page-Maps :
        Fits pa → 3 ≤ Room m.pool → Maps m (map_page t al tr root pa va at m) pa va at
    unfolding map_page walk
    map_page-Maps fits room =
        let s3 = l3-Stepped ok al_ok inv va room in
        let l3 = l3_table va m in
        let i3 = t.calculate_index va 3 in
        let leads = page_entry-Leads ok pa at (l3.1.tables l3.0 i3) fits in
        let ps : List ℕ =
          t.calculate_index va 2 ∷ t.calculate_index va 1 ∷ t.calculate_index va 0 ∷ [] in
        record {
          entry = l3.1.tables l3.0 i3;
          inv =
              page_write-Inv t tr root InUse s3.inv ps l3.0 i3
                (page_entry t pa at (l3.1.tables l3.0 i3)) refl s3.there;
          left = walk_left ok al_ok inv va room;
          mapped =
              page_write_self t tr root InUse s3.inv ps l3.0 i3
                (page_entry t pa at (l3.1.tables l3.0 i3)) refl s3.there
              ∙ leaf-valid leads.valid;
          leads = leads;
          others = λ va' ne.
              page_write_other t tr root InUse s3.inv ps l3.0 i3
                (page_entry t pa at (l3.1.tables l3.0 i3)) refl s3.there (path t va') refl ne
              ∙ walk-l3_table ok al_ok inv va room va';
        }
      where
        leaf-valid : {e : E} → t.is_valid e ≡ true → leaf t e ≡ some e
        leaf-valid h = rw h refl
