-- ===== src/Paging/Start.antt =====
-- klib/src/pm/page/mapper.rs: a root that holds no entry, as the allocators hand it out.
use mars.Prelude.{ℕ, subst, ◌≡◌, refl, sym, ap, ◌∙◌, inr, none, some, List, [], ◌∷◌}
use mars.Pages.Requests.{AddressTranslator}
use mars.Paging.Tables.{Tte, Memory, child}
use mars.Paging.Laws.{IsTte}
use mars.Paging.Walk.{through, table_at, Inv}
use mars.Paging.Write.{none≢some}

module _ {E S : Type 0} (t : Tte E) (tr : AddressTranslator) (root : ℕ) (InUse : S → ℕ → Type 0)
    (ok : IsTte t) (m : Memory E S) (empty : (i : ℕ) → m.tables root i ≡ t.invalid) where
  beyond_root : (i : ℕ) (is : List ℕ) → table_at t tr root m (i ∷ is) ≡ none
  unfolding table_at
  beyond_root i [] = ap (child t tr) (empty i) ∙ (rw ok.invalid_valid refl)
  beyond_root i (j ∷ is) = ap (through (child t tr) m.tables i) (beyond_root j is)

  only_root : (is : List ℕ) (q : ℕ) → table_at t tr root m is ≡ some q → (is ≡ []) × (q ≡ root)
  unfolding table_at
  only_root [] q e = (refl, (let f : root ≡ q = cc in sym f))
  only_root (i ∷ is) q e = none≢some (sym (beyond_root i is) ∙ e)

  pub start-Inv : InUse m.pool root → Inv t tr root InUse m
  start-Inv used = record {
    apart = λ is js q l k e f. (only_root is q e).0 ∙ sym (only_root js q f).0;
    known = λ is q l e. subst (InUse m.pool) (sym (only_root is q e).1) used;
    formed = λ is q i l e. inr (
        let at = ap (λ (x : ℕ). m.tables x i) (only_root is q e).1 ∙ empty i in
        (ap t.is_valid at ∙ ok.invalid_valid, ap t.address at ∙ ok.invalid_address));
  }
