-- ===== src/Paging/Sound.antt =====
-- klib/src/pm/page/mapper.rs: the invariant after the change of an entry.
use mars.Prelude.{
  ℕ, subst, ◌≤◌, ◌≡◌, refl, sym, ap, ◌∙◌, ◌⊎◌, inl, inr, false, none, some, List, [], ◌∷◌, arith,
  ℕ_discrete, Option-cases, length,
}
use mars.Pages.Requests.{AddressTranslator}
use mars.Paging.Tables.{Tte, Memory, child}
use mars.Paging.Walk.{Below, Below-dec, through, Linked, Vacant, table_at, Inv}
use mars.Paging.Write.{Change, table_at-same, none≢some}

module _ {E S : Type 0} (t : Tte E) (tr : AddressTranslator) (root : ℕ)
    (InUse : S → ℕ → Type 0) where
  -- What a change makes of the path through its entry: no table, or a new one without entries.
  pub record Sound (m m' : Memory E S) (ps : List ℕ) (p i : ℕ) : Type 0 where
    pub new :
        (q : ℕ)
        → length ps ≤ 2
        → table_at t tr root m' (i ∷ ps) ≡ some q
        → (¬ InUse m.pool q) × InUse m'.pool q × ((k : ℕ) → Vacant t (m'.tables q k))
    pub alive :
        (is : List ℕ) (q : ℕ)
        → length is ≤ 3
        → ¬ Below (i ∷ ps) is
        → table_at t tr root m is ≡ some q
        → InUse m'.pool q
    pub shaped : length ps ≤ 2 → Linked t (m'.tables p i) ⊎ Vacant t (m'.tables p i)

  module _ {m m' : Memory E S} {ps : List ℕ} {p i : ℕ} (inv : Inv t tr root InUse m)
      (ch : Change t tr root InUse m m' ps p i) (so : Sound m m' ps p i) where
    Below-new :
        (is : List ℕ) (q : ℕ)
        → length is ≤ 3
        → Below (i ∷ ps) is
        → table_at t tr root m' is ≡ some q
        → is ≡ i ∷ ps
    unfolding table_at
    Below-new [] q short b e = sym b
    Below-new (k ∷ is) q short (inl same) e = same
    Below-new (k ∷ is) q short (inr b) e = elim (Option-cases (table_at t tr root m' is)) [
      | inl none_here ↦ none≢some (sym (ap (through (child t tr) m'.tables k) none_here) ∙ e)
      | inr (r, here) ↦
          let same : is ≡ i ∷ ps = Below-new is r (omega arith) b here in
          let vacant : Vacant t (m'.tables r k) =
            (so.new r (omega (arith, ap length same))
                (ap (table_at t tr root m') (sym same) ∙ here)).2
              k in
          none≢some
            (sym (the_child vacant.0) ∙ sym (ap (through (child t tr) m'.tables k) here) ∙ e)
    ]
      where
        the_child : {e : E} → t.is_valid e ≡ false → child t tr e ≡ none
        the_child h = rw h refl

    -- A table that is reached afterwards was reached before by the same path, or is the new one.
    reached :
        (is : List ℕ) (q : ℕ)
        → length is ≤ 3
        → table_at t tr root m' is ≡ some q
        → ((¬ Below (i ∷ ps) is) × (table_at t tr root m is ≡ some q))
          ⊎ ((is ≡ i ∷ ps) × (table_at t tr root m' (i ∷ ps) ≡ some q))
    reached is q short e = elim (Below-dec (i ∷ ps) is) [
      | no away ↦ inl (away, sym (table_at-same t tr root InUse inv ch is short away) ∙ e)
      | yes b ↦
          let same : is ≡ i ∷ ps = Below-new is q short b e in
          inr (same, ap (table_at t tr root m') (sym same) ∙ e)
    ]

    decide_slot : (q j : ℕ) → Dec ((q ≡ p) × (j ≡ i))
    decide_slot q j = elim (ℕ_discrete q p) [
      | no ne ↦ no (λ s. ne s.0)
      | yes e ↦ elim (ℕ_discrete j i) [ no ne ↦ no (λ s. ne s.1) | yes f ↦ yes (e, f) ]
    ]

    apart_after :
        (is js : List ℕ) (q : ℕ)
        → length is ≤ 3
        → length js ≤ 3
        → table_at t tr root m' is ≡ some q
        → table_at t tr root m' js ≡ some q
        → is ≡ js
    apart_after is js q l k e f = elim (reached is q l e) [
      | inl (away, old) ↦ elim (reached js q k f) [
        | inl (away', old') ↦ inv.apart is js q l k old old'
        | inr (same', new') ↦
            absurd ((so.new q (omega (arith, ap length same')) new').0 (inv.known is q l old))
      ]
      | inr (same, new) ↦ elim (reached js q k f) [
        | inl (away', old') ↦
            absurd ((so.new q (omega (arith, ap length same)) new).0 (inv.known js q k old'))
        | inr (same', new') ↦ same ∙ sym same'
      ]
    ]

    known_after :
        (is : List ℕ) (q : ℕ) → length is ≤ 3 → table_at t tr root m' is ≡ some q → InUse m'.pool q
    known_after is q l e = elim (reached is q l e) [
      | inl (away, old) ↦ so.alive is q l away old
      | inr (same, new) ↦ (so.new q (omega (arith, ap length same)) new).1
    ]

    formed_after :
        (is : List ℕ) (q j : ℕ)
        → length is ≤ 2
        → table_at t tr root m' is ≡ some q
        → Linked t (m'.tables q j) ⊎ Vacant t (m'.tables q j)
    formed_after is q j l e = elim (reached is q (omega arith) e) [
      | inr (same, new) ↦ inr ((so.new q (omega (arith, ap length same)) new).2 j)
      | inl (away, old) ↦ elim (decide_slot q j) [
        | no other ↦
            subst (λ (x : E). Linked t x ⊎ Vacant t x)
              (sym (ch.same q j (inv.known is q (omega arith) old) other)) (inv.formed is q j l old)
        | yes (qp, ji) ↦
            let same : is ≡ ps =
              inv.apart is ps q (omega arith) ch.level old (ch.found ∙ ap some (sym qp)) in
            subst (λ (x : ℕ). Linked t (m'.tables x j) ⊎ Vacant t (m'.tables x j)) (sym qp)
              (subst (λ (x : ℕ). Linked t (m'.tables p x) ⊎ Vacant t (m'.tables p x)) (sym ji)
                (so.shaped (omega (arith, ap length same))))
      ]
    ]

    pub Inv-kept : Inv t tr root InUse m'
    Inv-kept = record { apart = apart_after; known = known_after; formed = formed_after }
