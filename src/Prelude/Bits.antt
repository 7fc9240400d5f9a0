-- ===== src/Prelude/Bits.antt =====
-- The bitwise or of numbers whose digits do not meet, which is how fields are put together.
use native.Mathlib.Nat.{pow-suc}
use Prim.Native.Nat.{
  ℕ, zero, suc, ◌+◌, ◌*◌, ◌/◌, ◌^◌, ◌≤◌, ◌<◌, max, digits, bit_or, bit_or-bitwise,
}
use mathlib.Core.Path.{◌≡◌, refl, ap, ◌∙◌}
use native.Mathlib.Omega.{arith}

double : (c k a : ℕ) → a ≡ c * 2 ^ suc k → a ≡ 2 * (c * 2 ^ k)
double c k a e = e ∙ ap (λ (p : ℕ). c * p) (pow-suc 2 k) ∙ power c (2 ^ k)
  where
    power : (c p : ℕ) → c * (p * 2) ≡ 2 * (c * p)
    power c p = omega arith

digits_or : (k n a b c : ℕ) → a ≤ n → a ≡ c * 2 ^ k → b < 2 ^ k → digits (λ x. x) max n a b ≡ a + b
digits_or zero zero a b c l e h = omega arith
digits_or zero (suc n) zero b c l e h = omega arith
digits_or zero (suc n) (suc a) b c l e h =
    let ih =
      digits_or zero n (suc a / 2) (b / 2) (suc a / 2) (omega arith) (omega arith) (omega arith) in
    omega (arith, ih)
digits_or (suc k) zero a b c l e h = omega arith
digits_or (suc k) (suc n) zero b c l e h = omega arith
digits_or (suc k) (suc n) (suc a) b c l e h =
    let e' = double c k (suc a) e in
    let ih = digits_or k n (suc a / 2) (b / 2) c (omega arith) (omega (arith, e')) (omega arith) in
    omega (arith, ih, e')

-- A number without digits below 2 ^ k, and one below 2 ^ k.
pub bit_or-plus : (k c b : ℕ) → b < 2 ^ k → bit_or (c * 2 ^ k) b ≡ c * 2 ^ k + b
bit_or-plus k c b h =
    bit_or-bitwise (c * 2 ^ k) b ∙ digits_or k (c * 2 ^ k) (c * 2 ^ k) b c (omega arith) refl h
