-- ===== src/Paging/Write.antt =====
-- klib/src/pm/page/mapper.rs: what the change of one entry does to the other paths.
use mars.Prelude.{
  ℕ, ◌≤◌, ◌≡◌, refl, sym, ap, ap₂, ◌∙◌, ◌≢◌, inl, inr, Option, some, List, [], ◌∷◌, arith,
  Option-cases, length,
}
use mars.Pages.Requests.{AddressTranslator}
use mars.Paging.Tables.{Tte, Memory, child}
use mars.Paging.Walk.{Below, through, leaf, table_at, entry_at, Inv}

pub none≢some : {A B : Type 0} {x : A} → Option.none ≡ some x → B
none≢some e = cc

module _ {E S : Type 0} (t : Tte E) (tr : AddressTranslator) (root : ℕ)
    (InUse : S → ℕ → Type 0) where
  -- Entry `i` of the table at `ps` is what differs between two states, and the tables not in use.
  pub record Change (m m' : Memory E S) (ps : List ℕ) (p i : ℕ) : Type 0 where
    pub found : table_at t tr root m ps ≡ some p
    pub level : length ps ≤ 3
    pub same : (q j : ℕ) → InUse m.pool q → ¬ ((q ≡ p) × (j ≡ i)) → m'.tables q j ≡ m.tables q j

  module _ {m m' : Memory E S} {ps : List ℕ} {p i : ℕ} (inv : Inv t tr root InUse m)
      (ch : Change m m' ps p i) where
    through-same :
        {B : Type 0} (g : E → Option B) (js : List ℕ) (j : ℕ)
        → length js ≤ 3
        → j ∷ js ≢ i ∷ ps
        → table_at t tr root m' js ≡ table_at t tr root m js
        → through g m'.tables j (table_at t tr root m' js)
          ≡ through g m.tables j (table_at t tr root m js)
    through-same g js j short ne ih = elim (Option-cases (table_at t tr root m js)) [
      | inl e ↦ ap (through g m'.tables j) (ih ∙ e) ∙ sym (ap (through g m.tables j) e)
      | inr (q, e) ↦
          let other : ¬ ((q ≡ p) × (j ≡ i)) = λ s.
            ne (ap₂ ◌∷◌ s.1 (inv.apart js ps q short ch.level e (ch.found ∙ ap some (sym s.0)))) in
          ap (through g m'.tables j) (ih ∙ e)
          ∙ ap g (ch.same q j (inv.known js q short e) other)
          ∙ sym (ap (through g m.tables j) e)
    ]

    -- The paths that do not go through the entry lead to the same tables.
    pub table_at-same :
        (is : List ℕ)
        → length is ≤ 3
        → ¬ Below (i ∷ ps) is
        → table_at t tr root m' is ≡ table_at t tr root m is
    unfolding table_at
    table_at-same [] short away = refl
    table_at-same (j ∷ js) short away =
        through-same (child t tr) js j (omega arith) (λ e. away (inl e))
          (table_at-same js (omega arith) (λ b. away (inr b)))

    pub entry_at-same :
        (is : List ℕ)
        → length is ≤ 4
        → ¬ Below (i ∷ ps) is
        → entry_at t tr root m' is ≡ entry_at t tr root m is
    unfolding entry_at
    entry_at-same [] short away = refl
    entry_at-same (j ∷ js) short away =
        through-same (leaf t) js j (omega arith) (λ e. away (inl e))
          (table_at-same js (omega arith) (λ b. away (inr b)))
