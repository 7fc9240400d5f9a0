-- ===== src/Paging/Steps.antt =====
-- klib/src/pm/page/mapper.rs: one step down a path, with a new table where there is none.
use mars.Prelude.{
  ℕ, subst, ◌≤◌, ◌≡◌, refl, sym, ap, ◌∙◌, ◌≢◌, inl, Option, none, some, List, ◌∷◌, arith,
  ℕ_discrete, length, suc,
}
use mars.Pages.Requests.{AddressTranslator}
use mars.Paging.Tables.{Tte, TableAllocator, Memory, child, set_entry, take_table, link_table}
use mars.Paging.Laws.{IsTte, IsAllocator, Leads, table_entry-Leads}
use mars.Paging.Walk.{
  Below, Below-dec, Below-length, through, Bounded, Vacant, table_at, entry_at, Inv,
}
use mars.Paging.Write.{Change, table_at-same, entry_at-same, none≢some}
use mars.Paging.Barren.{entry_at-none}
use mars.Paging.Sound.{Sound, Inv-kept}
use mars.Prelude.Family.{update, update_self, update_other}

pub some_inj : {A : Type 0} {x y : A} → Option.some x ≡ some y → x ≡ y
some_inj e = cc

module _ {E S : Type 0} where
  pub set_entry_self : (p i : ℕ) (e : E) (m : Memory E S) → (set_entry p i e m).tables p i ≡ e
  set_entry_self p i e m =
      ap (λ (f : ℕ → E). f i) (update_self m.tables p (update (m.tables p) i e))
      ∙ update_self (m.tables p) i e

  pub set_entry_other :
      (p i : ℕ) (e : E) (m : Memory E S) (q j : ℕ)
      → ¬ ((q ≡ p) × (j ≡ i))
      → (set_entry p i e m).tables q j ≡ m.tables q j
  set_entry_other p i e m q j ne = elim (ℕ_discrete q p) [
    | no other ↦ ap (λ (f : ℕ → E). f j) (update_other m.tables p (update (m.tables p) i e) q other)
    | yes same ↦
        ap (λ (x : ℕ). (set_entry p i e m).tables x j) same
        ∙ ap (λ (f : ℕ → E). f j) (update_self m.tables p (update (m.tables p) i e))
        ∙ update_other (m.tables p) i e j (λ x. ne (same, x))
        ∙ ap (λ (x : ℕ). m.tables x j) (sym same)
  ]

  clear_table_other :
      (c : ℕ) (f : ℕ → E) (m : Memory E S) (q j : ℕ)
      → q ≢ c
      → update m.tables c f q j ≡ m.tables q j
  clear_table_other c f m q j ne = ap (λ (g : ℕ → E). g j) (update_other m.tables c f q ne)

module _ {E S : Type 0} (t : Tte E) (al : TableAllocator S) (tr : AddressTranslator) (root : ℕ)
    (InUse : S → ℕ → Type 0) (Room : S → ℕ) where
  -- From table `p` the step leads to table `c`, and every address translates as before.
  pub record Stepped (m : Memory E S) (bs : List ℕ) (s : ℕ × Memory E S) : Type 0 where
    pub inv : Inv t tr root InUse s.1
    pub left : Room m.pool ≤ suc (Room s.1.pool)
    pub there : table_at t tr root s.1 bs ≡ some s.0
    pub same :
        (is : List ℕ)
        → length is ≡ 4
        → Bounded is
        → entry_at t tr root s.1 is ≡ entry_at t tr root m is

  module _ (ok : IsTte t) (al_ok : IsAllocator al tr InUse Room) {m : Memory E S}
      (inv : Inv t tr root InUse m) (ps : List ℕ) (p i : ℕ) (short : length ps ≤ 2)
      (room : 1 ≤ Room m.pool) (here : table_at t tr root m ps ≡ some p) where
    link_kept :
        (q j : ℕ)
        → InUse m.pool q
        → ¬ ((q ≡ p) × (j ≡ i))
        → (link_table t al tr p i m).1.tables q j ≡ m.tables q j
    unfolding link_table
    link_kept q j used ne =
        set_entry_other p i _ (take_table t al tr m).1 q j ne
        ∙ clear_table_other (al.alloc_table m.pool).0 (λ k. t.invalid) m q j
            (λ e. al_ok.fresh m.pool room (subst (InUse m.pool) e used))

    link_new :
        (k : ℕ) → (link_table t al tr p i m).1.tables (link_table t al tr p i m).0 k ≡ t.invalid
    unfolding link_table
    link_new k =
        set_entry_other p i _ (take_table t al tr m).1 (al.alloc_table m.pool).0 k (λ s.
          al_ok.fresh m.pool room
            (subst (InUse m.pool) (sym s.0) (inv.known ps p (omega arith) here)))
        ∙ ap (λ (f : ℕ → E). f k) (update_self m.tables (al.alloc_table m.pool).0 (λ k. t.invalid))

    link-Leads :
        Leads t
          ((link_table t al tr p i m).1.tables p i)
          (tr.dmap_to_phys (link_table t al tr p i m).0)
    unfolding link_table
    link-Leads =
        subst (λ (e : E). Leads t e (tr.dmap_to_phys (al.alloc_table m.pool).0))
          (sym (set_entry_self p i _ (take_table t al tr m).1))
          (table_entry-Leads ok _ _ (al_ok.placed m.pool room))

    link-Change : Change t tr root InUse m (link_table t al tr p i m).1 ps p i
    link-Change = record { found = here; level = omega arith; same = link_kept }

    away_from_ps : (js : List ℕ) → length js ≤ length ps → ¬ Below (i ∷ ps) js
    away_from_ps js l b = absurd (omega (arith, Below-length (i ∷ ps) js b))

    link_direct :
        tr.phys_to_dmap (tr.dmap_to_phys (link_table t al tr p i m).0)
        ≡ (link_table t al tr p i m).0
    unfolding link_table
    link_direct = al_ok.direct m.pool room

    unlinked : Vacant t (m.tables p i) → table_at t tr root m (i ∷ ps) ≡ none
    unfolding table_at
    unlinked vacant = ap (through (child t tr) m.tables i) here ∙ (rw vacant.0 refl)

    link_there :
        table_at t tr root (link_table t al tr p i m).1 (i ∷ ps) ≡ some (link_table t al tr p i m).0
    unfolding table_at
    link_there =
        let m' = (link_table t al tr p i m).1 in
        ap (through (child t tr) m'.tables i) (
          table_at-same t tr root InUse inv link-Change ps (omega arith)
            (away_from_ps ps (omega arith))
          ∙ here)
        ∙ child_of link-Leads
        ∙ ap some link_direct
      where
        child_of : {e : E} {pa : ℕ} → Leads t e pa → child t tr e ≡ some (tr.phys_to_dmap pa)
        child_of l = rw (l.valid, l.table, l.at) refl

    link_fresh :
        (¬ InUse m.pool (link_table t al tr p i m).0)
        × InUse (link_table t al tr p i m).1.pool (link_table t al tr p i m).0
        × ((q : ℕ) → InUse m.pool q → InUse (link_table t al tr p i m).1.pool q)
        × (tr.dmap_to_phys (link_table t al tr p i m).0 ≢ 0)
    unfolding link_table
    link_fresh = (
      al_ok.fresh m.pool room,
      al_ok.taken m.pool room,
      (λ q. al_ok.alloc_keeps m.pool q room),
      al_ok.not_zero m.pool room,
    )

    invalid-Vacant : {e : E} → e ≡ t.invalid → Vacant t e
    invalid-Vacant e = (ap t.is_valid e ∙ ok.invalid_valid, ap t.address e ∙ ok.invalid_address)

    -- The new table is the one at the end of the path.
    link_only :
        (q : ℕ)
        → table_at t tr root (link_table t al tr p i m).1 (i ∷ ps) ≡ some q
        → (link_table t al tr p i m).0 ≡ q
    link_only q e = some_inj (sym link_there ∙ e)

    link-Sound : Sound t tr root InUse m (link_table t al tr p i m).1 ps p i
    link-Sound = record {
      new = λ q lt e.
          let same = link_only q e in
          (
            (λ used. link_fresh.0 (subst (InUse m.pool) (sym same) used)),
            subst (InUse (link_table t al tr p i m).1.pool) same link_fresh.1,
            (λ k.
                invalid-Vacant (
                  ap (λ (x : ℕ). (link_table t al tr p i m).1.tables x k) (sym same) ∙ link_new k)),
          );
      alive = λ is q l away e. link_fresh.2 q (inv.known is q l e);
      shaped = λ l.
          inl (link-Leads.valid, link-Leads.table, (λ z. link_fresh.3 (sym link-Leads.at ∙ z)));
    }

    link_same :
        Vacant t (m.tables p i)
        → (is : List ℕ) → length is ≡ 4
        → Bounded is
        → entry_at t tr root (link_table t al tr p i m).1 is ≡ entry_at t tr root m is
    link_same vacant is l bounded = elim (Below-dec (i ∷ ps) is) [
      | no away ↦ entry_at-same t tr root InUse inv link-Change is (omega arith) away
      | yes b ↦
          let ne : is ≢ i ∷ ps = λ e. absurd (omega (arith, ap length e)) in
          entry_at-none t tr root (link_table t al tr p i m).1 (i ∷ ps)
            (λ q k e lt.
              ap (λ (x : ℕ). t.is_valid ((link_table t al tr p i m).1.tables x k))
                (sym (link_only q e))
              ∙ (invalid-Vacant (link_new k)).0)
            is bounded ne b
          ∙ sym (
              entry_at-none t tr root m (i ∷ ps) (λ q k e lt. none≢some (sym (unlinked vacant) ∙ e))
                is bounded ne b)
    ]

    -- `link_table` for an entry that leads to no table.
    link_left : Room m.pool ≤ suc (Room (link_table t al tr p i m).1.pool)
    unfolding link_table
    link_left = al_ok.alloc_room m.pool room

    pub link_table-Stepped : Vacant t (m.tables p i) → Stepped m (i ∷ ps) (link_table t al tr p i m)
    link_table-Stepped vacant = record {
      inv = Inv-kept t tr root InUse inv link-Change link-Sound;
      left = link_left;
      there = link_there;
      same = link_same vacant;
    }
