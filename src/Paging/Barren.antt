-- ===== src/Paging/Barren.antt =====
-- klib/src/pm/page/mapper.rs: the paths that go on from a table without entries.
use mars.Prelude.{
  ℕ, ◌<◌, ◌≡◌, refl, sym, ap, ◌∙◌, ◌≢◌, ◌⊎◌, inl, inr, false, none, some, List, [], ◌∷◌,
  Option-cases,
}
use mars.Pages.Requests.{AddressTranslator}
use mars.Paging.Tables.{Tte, Memory, child}
use mars.Paging.Walk.{Below, through, Bounded, leaf, table_at, entry_at}

module _ {E S : Type 0} (t : Tte E) (tr : AddressTranslator) (root : ℕ) where
  -- No table goes on from the paths at `bs`.
  abbrev pub Barren : Memory E S → List ℕ → Type 0
  Barren m bs =
      (q k : ℕ) → table_at t tr root m bs ≡ some q → k < 2048 → t.is_valid (m.tables q k) ≡ false

  module _ (m : Memory E S) (bs : List ℕ) (barren : Barren m bs) where
    child-none :
        (q k : ℕ) → table_at t tr root m bs ≡ some q → k < 2048 → child t tr (m.tables q k) ≡ none
    child-none q k e lt = rw (barren q k e lt) refl

    -- A path that goes on from a barren one leads to no table.
    Below-none :
        (is : List ℕ) → Bounded is → Below bs is → (is ≡ bs) ⊎ (table_at t tr root m is ≡ none)
    unfolding table_at
    Below-none [] bounded e = inl (sym e)
    Below-none (k ∷ is) bounded (inl e) = inl e
    Below-none (k ∷ is) (lt, bounded) (inr b) = elim (Below-none is bounded b) [
      | inr e ↦ inr (ap (through (child t tr) m.tables k) e)
      | inl same ↦ elim (Option-cases (table_at t tr root m is)) [
        | inl e ↦ inr (ap (through (child t tr) m.tables k) e)
        | inr (q, e) ↦ inr (
            ap (through (child t tr) m.tables k) e
            ∙ child-none q k (ap (table_at t tr root m) (sym same) ∙ e) lt)
      ]
    ]

    pub entry_at-none :
        (is : List ℕ) → Bounded is → is ≢ bs → Below bs is → entry_at t tr root m is ≡ none
    unfolding entry_at
    entry_at-none [] bounded ne e = refl
    entry_at-none (k ∷ is) bounded ne (inl e) = absurd (ne e)
    entry_at-none (k ∷ is) (lt, bounded) ne (inr b) = elim (Below-none is bounded b) [
      | inr e ↦ ap (through (leaf t) m.tables k) e
      | inl same ↦ elim (Option-cases (table_at t tr root m is)) [
        | inl e ↦ ap (through (leaf t) m.tables k) e
        | inr (q, e) ↦
            ap (through (leaf t) m.tables k) e
            ∙ (rw (barren q k (ap (table_at t tr root m) (sym same) ∙ e) lt) refl)
      ]
    ]
