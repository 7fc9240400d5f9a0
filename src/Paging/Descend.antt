-- ===== src/Paging/Descend.antt =====
-- klib/src/pm/page/mapper.rs: the table below an entry, at the levels 0 and 1 and at level 2.
use mars.Prelude.{
  ℕ, subst, ◌≤◌, ◌≡◌, refl, sym, ap, ◌∙◌, inl, inr, true, false, not, ◌&&◌, some, List, ◌∷◌, arith,
  ◌==◌, if◌then◌else◌, length,
}
use mars.Pages.Requests.{AddressTranslator}
use mars.Paging.Tables.{Tte, TableAllocator, Memory, child, link_table, next_table, last_table}
use mars.Paging.Laws.{IsTte, IsAllocator}
use mars.Paging.Walk.{through, Linked, Vacant, table_at, Inv}
use mars.Paging.Steps.{Stepped, link_table-Stepped}

module _ {E S : Type 0} (t : Tte E) (al : TableAllocator S) (tr : AddressTranslator) (root : ℕ)
    (InUse : S → ℕ → Type 0) (Room : S → ℕ) where
  child-Linked : {e : E} → Linked t e → child t tr e ≡ some (tr.phys_to_dmap (t.address e))
  child-Linked l = rw (l.0, l.1) refl

  -- Where there is a table, the step only follows the entry.
  follow-Stepped :
      (m : Memory E S)
      → Inv t tr root InUse m
      → (ps : List ℕ) (p i : ℕ) → table_at t tr root m ps ≡ some p
      → Linked t (m.tables p i)
      → Stepped t al tr root InUse Room m (i ∷ ps) (tr.phys_to_dmap (t.address (m.tables p i)), m)
  unfolding table_at
  follow-Stepped m inv ps p i here l = record {
    inv = inv;
    left = omega arith;
    there = ap (through (child t tr) m.tables i) here ∙ child-Linked l;
    same = λ is len bounded. refl;
  }

  next_table-follow :
      (p i : ℕ) (m : Memory E S)
      → Linked t (m.tables p i)
      → next_table t al tr p i m ≡ (tr.phys_to_dmap (t.address (m.tables p i)), m)
  unfolding next_table
  next_table-follow p i m l =
      let test : (not (t.address (m.tables p i) == 0) && t.is_table (m.tables p i)) ≡ true =
        ground (arith, l.1, l.2) in
      ap
        (λ b.
          if b then (tr.phys_to_dmap (t.address (m.tables p i)), m) else link_table t al tr p i m)
        test

  next_table-link :
      (p i : ℕ) (m : Memory E S)
      → Vacant t (m.tables p i)
      → next_table t al tr p i m ≡ link_table t al tr p i m
  unfolding next_table
  next_table-link p i m v =
      let test : (not (t.address (m.tables p i) == 0) && t.is_table (m.tables p i)) ≡ false =
        ground (arith, v.1) in
      ap
        (λ b.
          if b then (tr.phys_to_dmap (t.address (m.tables p i)), m) else link_table t al tr p i m)
        test

  pub next_table-Stepped :
      IsTte t
      → IsAllocator al tr InUse Room
      → (m : Memory E S) → Inv t tr root InUse m
      → (ps : List ℕ) (p i : ℕ) → length ps ≤ 2
      → 1 ≤ Room m.pool
      → table_at t tr root m ps ≡ some p
      → Stepped t al tr root InUse Room m (i ∷ ps) (next_table t al tr p i m)
  next_table-Stepped ok al_ok m inv ps p i short room here = elim (inv.formed ps p i short here) [
    | inl l ↦
        subst (Stepped t al tr root InUse Room m (i ∷ ps)) (sym (next_table-follow p i m l))
          (follow-Stepped m inv ps p i here l)
    | inr v ↦
        subst (Stepped t al tr root InUse Room m (i ∷ ps)) (sym (next_table-link p i m v))
          (link_table-Stepped t al tr root InUse Room ok al_ok inv ps p i short room here v)
  ]

  pub last_table-Stepped :
      IsTte t
      → IsAllocator al tr InUse Room
      → (m : Memory E S) → Inv t tr root InUse m
      → (ps : List ℕ) (p i : ℕ) → length ps ≤ 2
      → 1 ≤ Room m.pool
      → table_at t tr root m ps ≡ some p
      → Stepped t al tr root InUse Room m (i ∷ ps) (last_table t al tr p i m)
  unfolding last_table
  last_table-Stepped ok al_ok m inv ps p i short room here = elim (inv.formed ps p i short here) [
    | inl l ↦
        subst (Stepped t al tr root InUse Room m (i ∷ ps))
          (sym (
            ap
              (λ b.
                if b
                then (tr.phys_to_dmap (t.address (m.tables p i)), m)
                else link_table t al tr p i m)
              l.0))
          (follow-Stepped m inv ps p i here l)
    | inr v ↦
        subst (Stepped t al tr root InUse Room m (i ∷ ps))
          (sym (
            ap
              (λ b.
                if b
                then (tr.phys_to_dmap (t.address (m.tables p i)), m)
                else link_table t al tr p i m)
              v.0))
          (link_table-Stepped t al tr root InUse Room ok al_ok inv ps p i short room here v)
  ]
