-- ===== src/Paging/FreeAll.antt =====
-- klib/src/pm/page/mapper.rs: `free_tables` gives back a whole tree.
use mars.Prelude.{ℕ, suc, ◌≤◌, ◌≡◌, refl, sym, ap, ◌∙◌, true, some, List, [], ◌∷◌, arith, length}
use mars.Pages.Requests.{AddressTranslator}
use mars.Paging.Tables.{Tte, TableAllocator, Memory, child}
use mars.Paging.Walk.{through, table_at, Inv}
use mars.Paging.Trees.{free_l3, free_level, free_tables}
use mars.Paging.Freed.{
  give, give-append, is_link, tables_below, tables_from, all_tables, Frees, free_l3-Frees,
  free_below-Given,
}

module _ {E S : Type 0} (t : Tte E) (al : TableAllocator S) (tr : AddressTranslator) where
  -- A table of a level above, once those below are given back as they should.
  free_level-Frees :
      (tables : ℕ → ℕ → E) (Upper Good Above : ℕ → Type 0) (next : ℕ → Memory E S → Memory E S)
      (list : ℕ → List ℕ)
      → Frees t al tr tables Upper Good next list
      → ((p : ℕ) → Above p → Upper p)
      → ((p j : ℕ)
          → Above p
          → is_link t (tables p j) ≡ true
          → Good (tr.phys_to_dmap (t.address (tables p j))))
      → Frees t al tr tables Upper Above (free_level t al tr next) (tables_from t tr tables list)
  unfolding free_level
  free_level-Frees tables Upper Good Above next list frees upper good p m above agree =
      let (same, still) =
        free_below-Given t al tr tables Upper Good next list frees 2048 0 p m (upper p above)
          (λ j. good p j above) agree in
      (
        ap (al.free_table p) same
            ∙ sym (give-append al (tables_below t tr tables list 2048 0 p) (p ∷ []) m.pool),
        still,
      )

  module _ (root : ℕ) (InUse : S → ℕ → Type 0) (m : Memory E S) (inv : Inv t tr root InUse m) where
    -- Reached from the root by a path of so many indexes, and by one of at most two.
    abbrev AtLevel : ℕ → ℕ → Type 0
    AtLevel level p = (is : List ℕ) × (length is ≡ level) × (table_at t tr root m is ≡ some p)

    abbrev UpperTable : ℕ → Type 0
    UpperTable p = (is : List ℕ) × (length is ≤ 2) × (table_at t tr root m is ≡ some p)

    deeper :
        (level p j : ℕ)
        → AtLevel level p
        → is_link t (m.tables p j) ≡ true
        → AtLevel (suc level) (tr.phys_to_dmap (t.address (m.tables p j)))
    unfolding table_at
    deeper level p j (is, len, at) link =
        (j ∷ is, ap suc len, ap (through (child t tr) m.tables j) at ∙ follows link)
      where
        follows : {e : E} → is_link t e ≡ true → child t tr e ≡ some (tr.phys_to_dmap (t.address e))
        follows h = ground arith

    leaf_apart : (p : ℕ) → AtLevel 3 p → ¬ UpperTable p
    leaf_apart p (is, len, at) (js, short, at') =
        let same : is ≡ js = inv.apart is js p (omega arith) (omega arith) at at' in
        absurd (omega (arith, ap length same))

    above : (level p : ℕ) → level ≤ 2 → AtLevel level p → UpperTable p
    above level p le (is, len, at) = (is, omega arith, at)

    -- Freeing a tree of well-formed page tables gives back, one after the other, exactly the tables that
    -- a plain walk of the tree finds, each behind those below it and the root last, though the entries of
    -- level 3 are changed on the way.
    pub free_tables-gives :
        (free_tables t al tr root m).pool ≡ give al (all_tables t tr m.tables root) m.pool
    unfolding free_tables table_at
    free_tables-gives =
        let leaves = free_l3-Frees t al tr m.tables UpperTable (AtLevel 3) leaf_apart in
        let second =
          free_level-Frees m.tables UpperTable (AtLevel 3) (AtLevel 2) (free_l3 t al tr)
            (λ p. p ∷ []) leaves (λ p. above 2 p (omega arith)) (λ p j. deeper 2 p j) in
        let first =
          free_level-Frees m.tables UpperTable (AtLevel 2) (AtLevel 1)
            (free_level t al tr (free_l3 t al tr)) (tables_from t tr m.tables (λ p. p ∷ [])) second
            (λ p. above 1 p (omega arith)) (λ p j. deeper 1 p j) in
        let (same, still) =
          free_below-Given t al tr m.tables UpperTable (AtLevel 1)
            (free_level t al tr (free_level t al tr (free_l3 t al tr)))
            (tables_from t tr m.tables (tables_from t tr m.tables (λ p. p ∷ []))) first 2 0 root m
            ([], omega arith, refl) (λ j. deeper 0 root j ([], refl, refl)) (λ q i up. refl) in
        ap (al.free_table root) same
        ∙ sym (
            give-append al
              (tables_below t tr m.tables
                (tables_from t tr m.tables (tables_from t tr m.tables (λ p. p ∷ []))) 2 0 root)
              (root ∷ []) m.pool)
