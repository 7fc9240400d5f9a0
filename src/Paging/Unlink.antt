-- ===== src/Paging/Unlink.antt =====
-- klib/src/pm/page/mapper.rs: the release of an empty table.
use mars.Prelude.{
  ℕ, subst, zero, suc, ◌+◌, ◌≤◌, ◌<◌, ◌≡◌, refl, sym, ap, ◌∙◌, ◌≢◌, inl, inr, true, false, none,
  some, List, ◌∷◌, arith, ℕ_discrete, if◌then◌else◌, Bool-cases, length,
}
use mars.Pages.Requests.{AddressTranslator}
use mars.Paging.Tables.{
  Tte, TableAllocator, Memory, child, cleared, unlink_table, empty_from, is_table_empty,
}
use mars.Paging.Laws.{IsTte, IsAllocator, cleared_valid, cleared_address}
use mars.Paging.Walk.{
  Below, Below-dec, Below-length, through, Bounded, Vacant, table_at, entry_at, Inv,
}
use mars.Paging.Write.{Change, table_at-same, entry_at-same, none≢some}
use mars.Paging.Barren.{entry_at-none}
use mars.Paging.Sound.{Sound, Inv-kept}
use mars.Paging.Steps.{set_entry_self, set_entry_other, some_inj}

Below-refl : (i : ℕ) (ps : List ℕ) → Below (i ∷ ps) (i ∷ ps)
Below-refl i ps = inl refl

empty_from-invalid :
    {E : Type 0} (t : Tte E) (n i : ℕ) (f : ℕ → E)
    → empty_from t n i f ≡ true
    → (k : ℕ) → i ≤ k
    → k < i + n
    → t.is_valid (f k) ≡ false
unfolding empty_from
empty_from-invalid t zero i f e k l r = absurd (omega arith)
empty_from-invalid t (suc n) i f e k l r = elim (Bool-cases (t.is_valid (f i))) [
  | inl v ↦ absurd (true≢false (sym e ∙ ap (λ b. if b then false else empty_from t n (i + 1) f) v))
  | inr v ↦ elim (ℕ_discrete i k) [
    | yes same ↦ ap (λ (x : ℕ). t.is_valid (f x)) (sym same) ∙ v
    | no other ↦
        empty_from-invalid t n (i + 1) f
          (sym (ap (λ b. if b then false else empty_from t n (i + 1) f) v) ∙ e) k (omega arith)
          (omega arith)
  ]
]
  where
    true≢false : true ≢ false
    true≢false h = cc

module _ {E S : Type 0} (t : Tte E) (al : TableAllocator S) (tr : AddressTranslator) (root : ℕ)
    (InUse : S → ℕ → Type 0) (Room : S → ℕ) where
  module _ (ok : IsTte t) (al_ok : IsAllocator al tr InUse Room) {m : Memory E S}
      (inv : Inv t tr root InUse m) (ps : List ℕ) (p i c : ℕ) (short : length ps ≤ 2)
      (here : table_at t tr root m ps ≡ some p) where
    unlink_entry : (unlink_table t al tr c p i m).tables p i ≡ cleared t (m.tables p i)
    unfolding unlink_table
    unlink_entry = set_entry_self p i _ (record m { pool = al.free_table c m.pool })

    unlink-Vacant : Vacant t ((unlink_table t al tr c p i m).tables p i)
    unlink-Vacant = (
      ap t.is_valid unlink_entry ∙ cleared_valid ok _,
      ap t.address unlink_entry ∙ cleared_address ok _,
    )

    unlink-Change : Change t tr root InUse m (unlink_table t al tr c p i m) ps p i
    unfolding unlink_table
    unlink-Change = record {
      found = here;
      level = omega arith;
      same =
          λ q j used ne. set_entry_other p i _ (record m { pool = al.free_table c m.pool }) q j ne;
    }

    -- The tables that are not below the entry are reached as before.
    pub unlink_tables :
        (js : List ℕ)
        → length js ≤ length ps
        → table_at t tr root (unlink_table t al tr c p i m) js ≡ table_at t tr root m js
    unlink_tables js l =
        table_at-same t tr root InUse inv unlink-Change js (omega arith)
          (λ b. absurd (omega (arith, Below-length (i ∷ ps) js b)))

    unlink_none : table_at t tr root (unlink_table t al tr c p i m) (i ∷ ps) ≡ none
    unfolding table_at
    unlink_none =
        ap (through (child t tr) (unlink_table t al tr c p i m).tables i)
          (unlink_tables ps (omega arith) ∙ here)
        ∙ (rw unlink-Vacant.0 refl)

    module _ (there : table_at t tr root m (i ∷ ps) ≡ some c) where
      unlink_alive :
          (is : List ℕ) (q : ℕ)
          → length is ≤ 3
          → ¬ Below (i ∷ ps) is
          → table_at t tr root m is ≡ some q
          → InUse (unlink_table t al tr c p i m).pool q
      unfolding unlink_table
      unlink_alive is q l away e = al_ok.free_keeps m.pool c q (inv.known is q l e) (λ same. away (
          subst (Below (i ∷ ps))
            (inv.apart (i ∷ ps) is q (omega arith) l (there ∙ ap some (sym same)) e)
            (Below-refl i ps)))

      unlink-Sound : Sound t tr root InUse m (unlink_table t al tr c p i m) ps p i
      unlink-Sound = record {
        new = λ q l e. none≢some (sym unlink_none ∙ e);
        alive = unlink_alive;
        shaped = λ l. inr unlink-Vacant;
      }

      pub unlink-Inv : Inv t tr root InUse (unlink_table t al tr c p i m)
      unlink-Inv = Inv-kept t tr root InUse inv unlink-Change unlink-Sound

      -- The release of a table without valid entries changes no translation.
      pub unlink_same :
          is_table_empty t (m.tables c) ≡ true
          → (is : List ℕ) → length is ≡ 4
          → Bounded is
          → entry_at t tr root (unlink_table t al tr c p i m) is ≡ entry_at t tr root m is
      unfolding is_table_empty
      unlink_same empty is l bounded = elim (Below-dec (i ∷ ps) is) [
        | no away ↦ entry_at-same t tr root InUse inv unlink-Change is (omega arith) away
        | yes b ↦
            let ne : is ≢ i ∷ ps = λ e. absurd (omega (arith, ap length e)) in
            entry_at-none t tr root (unlink_table t al tr c p i m) (i ∷ ps)
              (λ q k e lt. none≢some (sym unlink_none ∙ e)) is bounded ne b
            ∙ sym (
                entry_at-none t tr root m (i ∷ ps)
                  (λ q k e lt.
                    ap (λ (x : ℕ). t.is_valid (m.tables x k)) (some_inj (sym e ∙ there))
                    ∙ empty_from-invalid t 2048 0 (m.tables c) empty k (omega arith) (omega arith))
                  is bounded ne b)
      ]
