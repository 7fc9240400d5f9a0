-- ===== src/Paging/Paths.antt =====
-- klib/src/pm/page/mapper.rs: the indexes of an address.
use mars.Prelude.{ℕ, ◌/◌, ◌%◌, ◌^◌, ◌≡◌, ap, get_or}
use mars.Paging.Tables.{Tte}
use mars.Paging.Laws.{IsTte}
use mars.Paging.Walk.{path, Bounded}

module _ {E : Type 0} (t : Tte E) (ok : IsTte t) where
  pub path-Bounded : (va : ℕ) → Bounded (path t va)
  path-Bounded va =
      (ok.index_lt va 3, (ok.index_lt va 2, (ok.index_lt va 1, (ok.index_lt va 0, tt))))

  -- Two pages of one range of 2 ^ 48 addresses have the same path only if they are one.
  pub path-apart :
      (a b : ℕ) → a / 2 ^ 48 ≡ b / 2 ^ 48 → a % 16384 ≡ b % 16384 → path t a ≡ path t b → a ≡ b
  path-apart a b top low e = ok.index_apart a b top low (head e 3) (head e 2) (head e 1) (head e 0)
    where
      head : path t a ≡ path t b → (n : ℕ) → get_or (path t a) n 0 ≡ get_or (path t b) n 0
      head e n = ap (λ l. get_or l n 0) e
