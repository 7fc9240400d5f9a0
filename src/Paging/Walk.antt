-- ===== src/Paging/Walk.antt =====
-- klib/src/pm/page/mapper.rs: where an address leads. The path of a table has the indexes that lead to
-- it from the root, the last one first.
use mathlib.Core.List.{List-discrete}
use mars.Prelude.{
  ℕ, ◌≤◌, ◌≡◌, ap, ◌⊎◌, inl, inr, Option, none, some, List, [], ◌∷◌, arith, ℕ_discrete,
  if◌then◌else◌, length, ◌<◌, true, false, ◌≢◌, sym,
}
use mars.Pages.Requests.{AddressTranslator}
use mars.Paging.Tables.{Tte, Memory, child}

-- Whether `is` is `bs` or goes on from it.
abbrev pub Below : List ℕ → List ℕ → Type 0
Below bs [] = bs ≡ []
Below bs (k ∷ is) = (k ∷ is ≡ bs) ⊎ Below bs is

pub Below-dec : (bs is : List ℕ) → Dec (Below bs is)
Below-dec bs [] = List-discrete ℕ_discrete bs []
Below-dec bs (k ∷ is) = elim (List-discrete ℕ_discrete (k ∷ is) bs) [
  | yes e ↦ yes (inl e)
  | no ne ↦ elim (Below-dec bs is) [
    | yes below ↦ yes (inr below)
    | no away ↦ no (λ b. elim b [ inl e ↦ ne e | inr below ↦ away below ])
  ]
]

pub Below-length : (bs is : List ℕ) → Below bs is → length bs ≤ length is
Below-length bs [] b = omega (arith, ap length b)
Below-length bs (k ∷ is) (inl e) = omega (arith, ap length e)
Below-length bs (k ∷ is) (inr b) = omega (arith, Below-length bs is b)

pub Below-same : (bs is : List ℕ) → length is ≤ length bs → Below bs is → is ≡ bs
Below-same bs [] l b = sym b
Below-same bs (k ∷ is) l (inl e) = e
Below-same bs (k ∷ is) l (inr b) = absurd (omega (arith, Below-length bs is b))

-- What entry `i` of a table leads to, if there is a table.
abbrev pub through : {E B : Type 0} → (E → Option B) → (ℕ → ℕ → E) → ℕ → Option ℕ → Option B
through g tables i none = none
through g tables i (some p) = g (tables p i)

abbrev pub Bounded : List ℕ → Type 0
Bounded [] = Unit
Bounded (i ∷ is) = (i < 2048) × Bounded is

module _ {E : Type 0} (t : Tte E) where
  -- The path of the entry for an address.
  abbrev pub path : ℕ → List ℕ
  path va =
      t.calculate_index va 3
      ∷ t.calculate_index va 2
      ∷ t.calculate_index va 1
      ∷ t.calculate_index va 0
      ∷ []

  abbrev pub leaf : E → Option E
  leaf e = if t.is_valid e then some e else none

  -- An entry that leads to a table, and one that does not.
  abbrev pub Linked : E → Type 0
  Linked e = (t.is_valid e ≡ true) × (t.is_table e ≡ true) × (t.address e ≢ 0)

  abbrev pub Vacant : E → Type 0
  Vacant e = (t.is_valid e ≡ false) × (t.address e ≡ 0)

module _ {E S : Type 0} (t : Tte E) (tr : AddressTranslator) (root : ℕ) where
  -- The table that a path leads to.
  unfoldable pub table_at : Memory E S → List ℕ → Option ℕ
  table_at m [] = some root
  table_at m (i ∷ is) = through (child t tr) m.tables i (table_at m is)

  -- The valid entry that a path leads to.
  unfoldable pub entry_at : Memory E S → List ℕ → Option E
  unfolding table_at
  entry_at m [] = none
  entry_at m (i ∷ is) = through (leaf t) m.tables i (table_at m is)

  -- The entry of level 3 that translates an address.
  unfoldable pub walk : Memory E S → ℕ → Option E
  unfolding entry_at
  walk m va = entry_at m (path t va)

module _ {E S : Type 0} (t : Tte E) (tr : AddressTranslator) (root : ℕ)
    (InUse : S → ℕ → Type 0) where
  -- A table is reached by one path, it is in use, and the entries of the levels 0 to 2 are formed.
  pub record Inv (m : Memory E S) : Type 0 where
    pub apart :
        (is js : List ℕ) (q : ℕ)
        → length is ≤ 3
        → length js ≤ 3
        → table_at t tr root m is ≡ some q
        → table_at t tr root m js ≡ some q
        → is ≡ js
    pub known :
        (is : List ℕ) (q : ℕ) → length is ≤ 3 → table_at t tr root m is ≡ some q → InUse m.pool q
    pub formed :
        (is : List ℕ) (q i : ℕ)
        → length is ≤ 2
        → table_at t tr root m is ≡ some q
        → Linked t (m.tables q i) ⊎ Vacant t (m.tables q i)
