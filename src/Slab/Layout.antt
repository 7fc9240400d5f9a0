-- ===== src/Slab/Layout.antt =====
-- klib/src/vm/slab.rs: classes of sizes, and where the objects of a page are.
use mars.Prelude.{
  ℕ, subst, zero, suc, ◌+◌, ◌*◌, ◌%◌, ◌≤◌, ◌<◌, ◌≡◌, refl, sym, ap, ◌⊎◌, inl, inr, true, ◌&&◌, none,
  some, arith, ℕ_discrete, leb, ◌==◌, Bool-cases, ltb,
}
use mars.Slab.{class_size, class_from, size_class_index, start_off, cap}
use mars.Vm.{align_up}

-- The search finds the first class that holds the size, or no class holds it.
class_from_lem :
    (left i size : ℕ)
    → ((class_from left i size ≡ none) × ((j : ℕ) → i ≤ j → j < i + left → class_size j < size))
      ⊎ ((k : ℕ) × (class_from left i size ≡ some k)
          × (k < i + left)
          × (size ≤ class_size k)
          × ((j : ℕ) → i ≤ j → j < k → class_size j < size))
unfolding class_from
class_from_lem zero i size = inl (refl, λ j le lt. absurd (omega arith))
class_from_lem (suc left) i size = elim (Bool-cases (leb size (class_size i))) [
  | inl holds ↦
      inr (i, rw holds refl, omega arith, ground (arith, holds), λ j le lt. absurd (omega arith))
  | inr small ↦
      let above : class_size i < size = ground (arith, small) in
      elim (class_from_lem left (i + 1) size) [
        | inl (nothing, all) ↦ inl (
          rw small nothing,
          λ j le lt. elim (ℕ_discrete j i) [
            | yes same ↦ omega (arith, above, ap class_size same)
            | no other ↦ all j (omega arith) (omega arith)
          ],
        )
        | inr (k, found, lt_k, holds, before) ↦ inr (
          k,
          rw small found,
          omega arith,
          holds,
          λ j le lt. elim (ℕ_discrete j i) [
            | yes same ↦ omega (arith, above, ap class_size same)
            | no other ↦ before j (omega arith) lt
          ],
        )
      ]
]

-- A class is found for a size of at most 2048 bytes, and it is the smallest that holds the size.
pub size_class_index_lem :
    (size : ℕ)
    → ((size_class_index size ≡ none) × (2048 < size))
      ⊎ ((i : ℕ) × (size_class_index size ≡ some i)
          × (i < 9)
          × (size ≤ class_size i)
          × ((j : ℕ) → j < i → class_size j < size))
unfolding size_class_index
size_class_index_lem size = elim (class_from_lem 9 0 size) [
  | inl (nothing, all) ↦ inl (nothing, all 8 (omega arith) (omega arith))
  | inr (k, found, lt, holds, before) ↦
      inr (k, found, omega arith, holds, λ j lt'. before j (omega arith) lt')
]

-- Where the objects of class `i` are.
pub record Laid (i : ℕ) : Type 0 where
  pub several : 7 ≤ cap i
  pub few : cap i < 65536
  pub behind : 32 ≤ start_off i
  pub inside : start_off i + cap i * class_size i ≤ 16384
  pub aligned : start_off i % class_size i ≡ 0
  pub divides : 16384 % class_size i ≡ 0

abbrev AllBelow : (ℕ → Type 0) → ℕ → Type 0
AllBelow P zero = Unit
AllBelow P (suc n) = P n × AllBelow P n

one_below : (P : ℕ → Type 0) (n i : ℕ) → AllBelow P n → i < n → P i
one_below P zero i all lt = absurd (omega arith)
one_below P (suc n) i (last, all) lt = elim (ℕ_discrete i n) [
  | yes same ↦ subst P (sym same) last
  | no other ↦ one_below P n i all (omega arith)
]

Laid-if :
    (i : ℕ)
    → (leb 7 (cap i)
        && ltb (cap i) (65536)
        && leb 32 (start_off i)
        && leb (start_off i + cap i * class_size i) 16384
        && (start_off i % class_size i == 0)
        && (16384 % class_size i == 0))
      ≡ true
    → Laid i
Laid-if i e = record {
  several = ground (arith, e);
  few = ground (arith, e);
  behind = ground (arith, e);
  inside = ground (arith, e);
  aligned = ground (arith, e);
  divides = ground (arith, e);
}

-- In every class the objects of a page begin behind its header and end inside it, lie at multiples of
-- their size when the page does, and are seven at least.
pub objects-Laid : (i : ℕ) → i < 9 → Laid i
unfolding cap start_off align_up
objects-Laid i lt =
    one_below Laid 9 i
      (
        Laid-if 8 refl,
        (
          Laid-if 7 refl,
          (
            Laid-if 6 refl,
            (
              Laid-if 5 refl,
              (
                Laid-if 4 refl,
                (Laid-if 3 refl, (Laid-if 2 refl, (Laid-if 1 refl, (Laid-if 0 refl, tt)))),
              ),
            ),
          ),
        ),
      )
      lt
