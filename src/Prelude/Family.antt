-- ===== src/Prelude/Family.antt =====
-- Families indexed by a thread or a consumer: the change of one member, and sums over the first n.
use Prim.Native.Nat.{ℕ, zero, suc, ◌+◌, ◌≤◌, ◌<◌}
use mathlib.Core.Path.{◌≡◌, refl}
use mathlib.Core.Logic.{◌≢◌, ite}
use native.Mathlib.Decide.{dec_le, dec_lt, ℕ_discrete}
use native.Mathlib.Omega.{arith}

abbrev pub update {ℓ} : {A : Type ℓ} → (ℕ → A) → ℕ → A → ℕ → A
update f i a k = ite (ℕ_discrete k i) a (f k)

-- The changed member is the new one.
pub update_self {ℓ} : {A : Type ℓ} (f : ℕ → A) (i : ℕ) (a : A) → update f i a i ≡ a
update_self f i a = ground arith

pub update_other {ℓ} :
    {A : Type ℓ} (f : ℕ → A) (i : ℕ) (a : A) (k : ℕ) → k ≢ i → update f i a k ≡ f k
update_other f i a k ne = ground arith

module _ {ℓ} {A : Type ℓ} (weight : A → ℕ) where
  pub sum_below : ℕ → (ℕ → A) → ℕ
  sum_below zero f = 0
  sum_below (suc n) f = weight (f n) + sum_below n f

  sum_below-behind :
      (m : ℕ) (f : ℕ → A) (a : A) (i : ℕ) → m ≤ i → sum_below m (update f i a) ≡ sum_below m f
  unfolding sum_below
  sum_below-behind zero f a i le = refl
  sum_below-behind (suc m) f a i le = ground (arith, sum_below-behind m f a i)

  -- Changing member `i` moves the sum by the difference of the weights.
  pub sum_below-update :
      (m : ℕ) (f : ℕ → A) (i : ℕ) (a : A)
      → i < m
      → sum_below m (update f i a) + weight (f i) ≡ sum_below m f + weight a
  unfolding sum_below
  sum_below-update zero f i a lt = elim lt [ ]
  sum_below-update (suc m) f i a lt = elim (dec_le m i) [
    | no earlier ↦ ground (arith, sum_below-update m f i a (omega arith))
    | yes last ↦ ground (arith, sum_below-behind m f a i last)
  ]

  -- A member weighs no more than the whole.
  pub weight-le-sum_below : (n : ℕ) (f : ℕ → A) (i : ℕ) → i < n → weight (f i) ≤ sum_below n f
  unfolding sum_below
  weight-le-sum_below zero f i h = absurd (omega arith)
  weight-le-sum_below (suc n) f i h = elim (dec_lt i n) [
    | yes inside ↦ omega (arith, weight-le-sum_below n f i inside)
    | no outside ↦ ground arith
  ]

  -- Members of weight at most 1 weigh no more than their number.
  pub sum_below-le : ((a : A) → weight a ≤ 1) → (n : ℕ) (f : ℕ → A) → sum_below n f ≤ n
  unfolding sum_below
  sum_below-le light zero f = omega arith
  sum_below-le light (suc n) f = omega (arith, sum_below-le light n f, light (f n))

  -- So do two different members together.
  pub two_weights-le-sum_below :
      (n : ℕ) (f : ℕ → A) (i k : ℕ)
      → i < n
      → k < n
      → i ≢ k
      → weight (f i) + weight (f k) ≤ sum_below n f
  unfolding sum_below
  two_weights-le-sum_below zero f i k h g ne = absurd (omega arith)
  two_weights-le-sum_below (suc n) f i k h g ne = elim (dec_lt i n) [
    | yes p ↦ elim (dec_lt k n) [
      | yes q ↦ omega (arith, two_weights-le-sum_below n f i k p q ne)
      | no q ↦ ground (arith, weight-le-sum_below n f i p)
    ]
    | no p ↦ ground (arith, weight-le-sum_below n f k)
  ]

  pub sum_below-zero : (n : ℕ) (f : ℕ → A) → ((k : ℕ) → weight (f k) ≡ 0) → sum_below n f ≡ 0
  unfolding sum_below
  sum_below-zero zero f none_weighs = refl
  sum_below-zero (suc n) f none_weighs =
      omega (arith, sum_below-zero n f none_weighs, none_weighs n)
