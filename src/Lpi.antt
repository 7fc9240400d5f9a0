-- ===== src/Lpi.antt =====
-- klib/src/interrupt/gicv3/lpi_alloc.rs: the bitmap allocator of interrupt numbers (LPIs).
-- A `u64` of the bitmap is the list of its 64 bits, the lowest first; a `u32` sum is reduced.
pub mod Bits
pub mod Valid
pub mod Marks
pub mod Alloc
use mars.Prelude.{
  ℕ, zero, suc, ◌+◌, ◌-◌, ◌*◌, ◌/◌, ◌%◌, ◌^◌, Bool, true, false, ◌&&◌, ◌||◌, not, Option, none,
  some, List, [], ◌∷◌, length, get_or, set, replicate, ltb, leb, if◌then◌else◌,
}

abbrev pub Word : Type 0
Word = List Bool

abbrev pub word_zero : Word
word_zero = replicate 64 false

pub record LpiAllocator : Type 0 where
  pub bitmap : List Word
  pub base_id : ℕ
  pub max_id : ℕ
  pub hint : ℕ

abbrev u32 : ℕ → ℕ
u32 n = n % 2 ^ 32

-- `LpiAllocator::new`.
unfoldable pub new : ℕ → ℕ → LpiAllocator
new base_id max_id =
    let count = u32 (u32 (max_id + 2 ^ 32 - base_id) + 1) in
    record {
      bitmap = replicate (u32 (count + 63) / 64) word_zero;
      base_id = base_id;
      max_id = max_id;
      hint = 0;
    }

-- `word == !0`.
pub all_ones : Word → Bool
all_ones [] = true
all_ones (b ∷ bs) = b && all_ones bs

-- `(!word).trailing_zeros()`.
pub trailing_ones : Word → ℕ
trailing_ones [] = 0
trailing_ones (b ∷ bs) = let rest = suc (trailing_ones bs) in if b then rest else 0

abbrev pub word_at : List Word → ℕ → Word
word_at bitmap i = get_or bitmap i []

-- `bitmap[i] |= 1 << bit` and `bitmap[i] &= !(1 << bit)`.
abbrev pub write_bit : List Word → ℕ → ℕ → Bool → List Word
write_bit bitmap i bit v = set bitmap i (set (word_at bitmap i) bit v)

-- The loop of `alloc`: `rounds` are left, and `k` have been made. It reads `self.hint` in each round,
-- also after a round that has changed it.
pub alloc_loop : ℕ → ℕ → LpiAllocator → Option ℕ × LpiAllocator
unfolding all_ones trailing_ones
alloc_loop zero k a = (none, a)
alloc_loop (suc rounds) k a =
    let i = (a.hint + k) % length a.bitmap in
    let bit = trailing_ones (word_at a.bitmap i) in
    let marked = write_bit a.bitmap i bit true in
    let id = u32 (a.base_id + u32 (i * 64) + bit) in
    let skipped = alloc_loop rounds (k + 1) a in
    let undone =
      alloc_loop rounds (k + 1) (record a { bitmap = write_bit marked i bit false; hint = i }) in
    if all_ones (word_at a.bitmap i)
    then skipped
    else if ltb a.max_id id
    then undone
    else (some id, record a { bitmap = marked; hint = i })

-- `LpiAllocator::alloc`.
unfoldable pub alloc : LpiAllocator → Option ℕ × LpiAllocator
unfolding alloc_loop
alloc a = alloc_loop (length a.bitmap) 0 a

abbrev pub contains : LpiAllocator → ℕ → Bool
contains a id = leb a.base_id id && leb id a.max_id

-- `LpiAllocator::reserve`; the Boolean is `Ok`.
unfoldable pub reserve : LpiAllocator → ℕ → Bool × LpiAllocator
reserve a id =
    let offset = id - a.base_id in
    if not (contains a id)
    then (false, a)
    else if get_or (word_at a.bitmap (offset / 64)) (offset % 64) false
    then (false, a)
    else (true, record a { bitmap = write_bit a.bitmap (offset / 64) (offset % 64) true })

-- `LpiAllocator::free`.
unfoldable pub free : LpiAllocator → ℕ → LpiAllocator
free a id =
    let offset = id - a.base_id in
    let i = offset / 64 in
    if not (contains a id) then a else record a {
      bitmap = write_bit a.bitmap i (offset % 64) false;
      hint = if ltb i a.hint then i else a.hint;
    }
