-- ===== src/Paging/Freed.antt =====
-- klib/src/pm/page/mapper.rs: what `free_tables` gives back.
use mars.Prelude.{
  ℕ, subst, zero, suc, ◌+◌, ◌≡◌, refl, sym, ap, ◌∙◌, Bool, true, false, ◌&&◌, List, [], ◌∷◌, ◌++◌,
  if◌then◌else◌,
}
use mars.Pages.Requests.{AddressTranslator}
use mars.Paging.Tables.{Tte, TableAllocator, Memory, set_entry}
use mars.Paging.Steps.{set_entry_other}
use mars.Paging.Trees.{invalidate_entries, free_l3, free_below}

module _ {S : Type 0} (al : TableAllocator S) where
  -- The tables given back one after the other.
  abbrev pub give : List ℕ → S → S
  give [] s = s
  give (p ∷ ps) s = give ps (al.free_table p s)

  pub give-append : (ps qs : List ℕ) (s : S) → give (ps ++ qs) s ≡ give qs (give ps s)
  give-append [] qs s = refl
  give-append (p ∷ ps) qs s = give-append ps qs (al.free_table p s)

abbrev pub is_link : {E : Type 0} → Tte E → E → Bool
is_link t e = t.is_valid e && t.is_table e

module _ {E : Type 0} (t : Tte E) (tr : AddressTranslator) (tables : ℕ → ℕ → E) where
  -- The tables of a tree in the order in which each comes behind those below it, by a plain walk of
  -- tables that nothing changes: below so many entries of a table, and the whole.
  unfoldable pub tables_below : (ℕ → List ℕ) → ℕ → ℕ → ℕ → List ℕ
  tables_below next zero i p = []
  tables_below next (suc left) i p =
      (if is_link t (tables p i) then next (tr.phys_to_dmap (t.address (tables p i))) else [])
      ++ tables_below next left (i + 1) p

  abbrev pub tables_from : (ℕ → List ℕ) → ℕ → List ℕ
  tables_from next p = tables_below next 2048 0 p ++ p ∷ []

  abbrev pub all_tables : ℕ → List ℕ
  all_tables root = tables_below (tables_from (tables_from (λ p. p ∷ []))) 2 0 root ++ root ∷ []

module _ {E S : Type 0} (t : Tte E) (al : TableAllocator S) (tr : AddressTranslator)
    (tables : ℕ → ℕ → E) (Upper : ℕ → Type 0) where
  -- The tables of the levels 0 to 2 are as they were.
  abbrev pub Agree : Memory E S → Type 0
  Agree m = (q i : ℕ) → Upper q → m.tables q i ≡ tables q i

  abbrev pub Given : Memory E S → List ℕ → Memory E S → Type 0
  Given m ps m' = (m'.pool ≡ give al ps m.pool) × Agree m'

  abbrev pub Frees : (ℕ → Type 0) → (ℕ → Memory E S → Memory E S) → (ℕ → List ℕ) → Type 0
  Frees Good next list = (p : ℕ) (m : Memory E S) → Good p → Agree m → Given m (list p) (next p m)

  write_leaf :
      (b : Bool) (p i : ℕ) (e : E) (m : Memory E S)
      → ¬ Upper p
      → Agree m
      → Given m [] (if b then set_entry p i e m else m)
  write_leaf true p i e m leaf agree =
      (refl, λ q j up. set_entry_other p i e m q j (λ s. leaf (subst Upper s.0 up)) ∙ agree q j up)
  write_leaf false p i e m leaf agree = (refl, agree)

  invalidate-Given :
      (left i p : ℕ) (m : Memory E S)
      → ¬ Upper p
      → Agree m
      → Given m [] (invalidate_entries t al tr left i p m)
  unfolding invalidate_entries
  invalidate-Given zero i p m leaf agree = (refl, agree)
  invalidate-Given (suc left) i p m leaf agree =
      let e = m.tables p i in
      let (same, still) = write_leaf (is_link t e) p i (t.set_is_valid false e) m leaf agree in
      let (same', after) =
        invalidate-Given left (i + 1) p
          (if is_link t e then set_entry p i (t.set_is_valid false e) m else m) leaf still in
      (same' ∙ same, after)

  pub free_l3-Frees :
      (Good : ℕ → Type 0)
      → ((p : ℕ) → Good p → ¬ Upper p)
      → Frees Good (free_l3 t al tr) (λ p. p ∷ [])
  unfolding free_l3
  free_l3-Frees Good leaf p m good agree =
      let (same, still) = invalidate-Given 2048 0 p m (leaf p good) agree in
      (ap (al.free_table p) same, still)

  by_link :
      (Good : ℕ → Type 0) (next : ℕ → Memory E S → Memory E S) (list : ℕ → List ℕ)
      → Frees Good next list
      → (q : ℕ) (m : Memory E S) (b : Bool) → (b ≡ true → Good q)
      → Agree m
      → Given m (if b then list q else []) (if b then next q m else m)
  by_link Good next list frees q m true good agree = frees q m (good refl) agree
  by_link Good next list frees q m false good agree = (refl, agree)

  pub free_below-Given :
      (Good : ℕ → Type 0) (next : ℕ → Memory E S → Memory E S) (list : ℕ → List ℕ)
      → Frees Good next list
      → (left i p : ℕ) (m : Memory E S) → Upper p
      → ((j : ℕ) → is_link t (tables p j) ≡ true → Good (tr.phys_to_dmap (t.address (tables p j))))
      → Agree m
      → Given m (tables_below t tr tables list left i p) (free_below t al tr next left i p m)
  unfolding tables_below free_below
  free_below-Given Good next list frees zero i p m up good agree = (refl, agree)
  free_below-Given Good next list frees (suc left) i p m up good agree =
      let e = agree p i up in
      let q = tr.phys_to_dmap (t.address (m.tables p i)) in
      let b = is_link t (m.tables p i) in
      let (one, still) =
        by_link Good next list frees q m b
          (subst (λ (x : E). is_link t x ≡ true → Good (tr.phys_to_dmap (t.address x))) (sym e)
            (good i))
          agree in
      let (rest, after) =
        free_below-Given Good next list frees left (i + 1) p (if b then next q m else m) up good
          still in
      (
        rest
            ∙ ap (give al (tables_below t tr tables list left (i + 1) p)) one
            ∙ sym (
                give-append al (if b then list q else [])
                  (tables_below t tr tables list left (i + 1) p) m.pool)
            ∙ ap
                (λ (x : E).
                  give al
                    ((if is_link t x then list (tr.phys_to_dmap (t.address x)) else [])
                      ++ tables_below t tr tables list left (i + 1) p)
                    m.pool)
                e,
        after,
      )
