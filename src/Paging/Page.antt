-- ===== src/Paging/Page.antt =====
-- klib/src/pm/page/mapper.rs: the write of one entry of level 3.
use mars.Prelude.{ℕ, ◌≤◌, ◌≡◌, ap, ◌∙◌, ◌≢◌, some, List, ◌∷◌, arith, length}
use mars.Pages.Requests.{AddressTranslator}
use mars.Paging.Tables.{Tte, Memory, set_entry}
use mars.Paging.Walk.{Below-length, Below-same, through, leaf, table_at, entry_at, Inv}
use mars.Paging.Write.{Change, table_at-same, entry_at-same}
use mars.Paging.Sound.{Sound, Inv-kept}
use mars.Paging.Steps.{set_entry_self, set_entry_other}

module _ {E S : Type 0} (t : Tte E) (tr : AddressTranslator) (root : ℕ)
    (InUse : S → ℕ → Type 0) where
  module _ {m : Memory E S} (inv : Inv t tr root InUse m) (ps : List ℕ) (p i : ℕ) (e : E)
      (level : length ps ≡ 3) (here : table_at t tr root m ps ≡ some p) where
    page_write-Change : Change t tr root InUse m (set_entry p i e m) ps p i
    page_write-Change = record {
      found = here;
      level = omega arith;
      same = λ q j used ne. set_entry_other p i e m q j ne;
    }

    page_write-Sound : Sound t tr root InUse m (set_entry p i e m) ps p i
    page_write-Sound = record {
      new = λ q lt x. absurd (omega arith);
      alive = λ is q l away x. inv.known is q l x;
      shaped = λ lt. absurd (omega arith);
    }

    pub page_write-Inv : Inv t tr root InUse (set_entry p i e m)
    page_write-Inv = Inv-kept t tr root InUse inv page_write-Change page_write-Sound

    pub page_write_tables :
        (is : List ℕ)
        → length is ≤ 3
        → table_at t tr root (set_entry p i e m) is ≡ table_at t tr root m is
    page_write_tables is l =
        table_at-same t tr root InUse inv page_write-Change is l
          (λ b. absurd (omega (arith, Below-length (i ∷ ps) is b)))

    pub page_write_self : entry_at t tr root (set_entry p i e m) (i ∷ ps) ≡ leaf t e
    unfolding entry_at
    page_write_self =
        ap (through (leaf t) (set_entry p i e m).tables i)
          (page_write_tables ps (omega arith) ∙ here)
        ∙ ap (leaf t) (set_entry_self p i e m)

    pub page_write_other :
        (is : List ℕ)
        → length is ≡ 4
        → is ≢ i ∷ ps
        → entry_at t tr root (set_entry p i e m) is ≡ entry_at t tr root m is
    page_write_other is l ne =
        entry_at-same t tr root InUse inv page_write-Change is (omega arith)
          (λ b. ne (Below-same (i ∷ ps) is (omega arith) b))
