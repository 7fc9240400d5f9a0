-- ===== src/Lpi/Bits.antt =====
-- klib/src/interrupt/gicv3/lpi_alloc.rs: the bits of a bitmap, one after another.
use Prim.Native.Nat.{zero}
use mathlib.Core.List.{[]}
use mars.Lpi.{
  Word, all_ones, trailing_ones, word_at, write_bit, List, length, Bool, set, replicate, false,
  get_or, true, suc,
}
use mars.Prelude.{
  ℕ, zero, suc, ◌/◌, ◌%◌, ◌<◌, ◌≡◌, refl, sym, ap, ◌∙◌, Bool, true, false, List, [], ◌∷◌, arith,
  ℕ_discrete, ◌==◌, if◌then◌else◌, length, set, get_or, replicate, get_or-set_ne, get_or-set_self,
  set-set, set-get_or,
}

-- The bit that stands for the `k`-th interrupt.
abbrev pub bit_at : List Word → ℕ → Bool
bit_at bitmap k = get_or (word_at bitmap (k / 64)) (k % 64) false

abbrev pub HasWords : List Word → Type 0
HasWords [] = Unit
HasWords (w ∷ ws) = (length w ≡ 64) × HasWords ws

pub length-word_at :
    (bitmap : List Word) (i : ℕ)
    → HasWords bitmap
    → i < length bitmap
    → length (word_at bitmap i) ≡ 64
length-word_at [] i h lt = absurd (omega arith)
length-word_at (w ∷ ws) zero h lt = h.0
length-word_at (w ∷ ws) (suc i) h lt = length-word_at ws i h.1 (omega arith)

pub HasWords-set :
    (bitmap : List Word) (i : ℕ) (w : Word)
    → HasWords bitmap
    → length w ≡ 64
    → HasWords (set bitmap i w)
HasWords-set [] i w h e = tt
HasWords-set (x ∷ ws) zero w h e = (e, h.1)
HasWords-set (x ∷ ws) (suc i) w h e = (h.0, HasWords-set ws i w h.1 e)

pub HasWords-replicate : (n : ℕ) (w : Word) → length w ≡ 64 → HasWords (replicate n w)
HasWords-replicate zero w e = tt
HasWords-replicate (suc n) w e = (e, HasWords-replicate n w e)

-- A word with a zero has its first one at `trailing_ones`.
pub trailing_ones-zero :
    (w : Word)
    → all_ones w ≡ false
    → (trailing_ones w < length w) × (get_or w (trailing_ones w) false ≡ false)
unfolding all_ones trailing_ones
trailing_ones-zero [] h = cc
trailing_ones-zero (true ∷ w) h =
    (omega (arith, (trailing_ones-zero w h).0), (trailing_ones-zero w h).1)
trailing_ones-zero (false ∷ w) h = (omega arith, refl)

pub get_or-below_trailing_ones : (w : Word) (b : ℕ) → b < trailing_ones w → get_or w b false ≡ true
unfolding trailing_ones
get_or-below_trailing_ones [] b h = absurd (omega arith)
get_or-below_trailing_ones (true ∷ w) zero h = refl
get_or-below_trailing_ones (true ∷ w) (suc b) h = get_or-below_trailing_ones w b (omega arith)
get_or-below_trailing_ones (false ∷ w) b h = absurd (omega arith)

pub get_or-all_ones :
    (w : Word) (b : ℕ) → all_ones w ≡ true → b < length w → get_or w b false ≡ true
unfolding all_ones
get_or-all_ones [] b h lt = absurd (omega arith)
get_or-all_ones (true ∷ w) zero h lt = refl
get_or-all_ones (true ∷ w) (suc b) h lt = get_or-all_ones w b h (omega arith)
get_or-all_ones (false ∷ w) b h lt = cc

pub all_ones-set : (w : Word) (b : ℕ) → all_ones w ≡ true → all_ones (set w b true) ≡ true
unfolding all_ones
all_ones-set [] b h = refl
all_ones-set (true ∷ w) zero h = h
all_ones-set (true ∷ w) (suc b) h = all_ones-set w b h
all_ones-set (false ∷ w) b h = cc

-- Writing a bit changes that bit alone.
pub bit_at-write_bit :
    (bitmap : List Word) (k j : ℕ) (v : Bool)
    → HasWords bitmap
    → k / 64 < length bitmap
    → bit_at (write_bit bitmap (k / 64) (k % 64) v) j ≡ (if j == k then v else bit_at bitmap j)
bit_at-write_bit bitmap k j v h lt = elim (ℕ_discrete (k / 64) (j / 64)) [
  | no ne ↦
      rw (get_or-set_ne bitmap (k / 64) (j / 64) (set (word_at bitmap (k / 64)) (k % 64) v) [] ne)
        (ground arith)
  | yes e ↦
      rw (← e, get_or-set_self bitmap (k / 64) (set (word_at bitmap (k / 64)) (k % 64) v) [] lt)
        (ground (
          arith,
          get_or-set_self (word_at bitmap (k / 64)) (k % 64) v false,
          get_or-set_ne (word_at bitmap (k / 64)) (k % 64) (j % 64) v false,
          length-word_at bitmap (k / 64) h lt,
        ))
]

-- Setting and clearing a bit that was clear changes nothing.
pub write_bit-undo :
    (bitmap : List Word) (i b : ℕ)
    → i < length bitmap
    → b < length (word_at bitmap i)
    → get_or (word_at bitmap i) b false ≡ false
    → write_bit (write_bit bitmap i b true) i b false ≡ bitmap
write_bit-undo bitmap i b lt lb clear =
    ap (λ w. set (write_bit bitmap i b true) i (set w b false))
      (get_or-set_self bitmap i (set (word_at bitmap i) b true) [] lt)
    ∙ set-set bitmap i _ _
    ∙ ap (λ w. set bitmap i w)
        (set-set (word_at bitmap i) b true false
          ∙ ap (λ v. set (word_at bitmap i) b v) (sym clear)
          ∙ set-get_or (word_at bitmap i) b false)
    ∙ set-get_or bitmap i []
