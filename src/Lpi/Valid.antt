-- ===== src/Lpi/Valid.antt =====
-- klib/src/interrupt/gicv3/lpi_alloc.rs: the invariant of the allocator.
use mars.Lpi.Bits.{
  HasWords, bit_at, bit_at-write_bit, HasWords-set, all_ones-set, length-word_at,
  HasWords-replicate,
}
use mars.Prelude.{
  ℕ, ◌+◌, ◌-◌, ◌/◌, ◌%◌, ◌^◌, ◌≤◌, ◌<◌, ◌≡◌, refl, ap, ◌∙◌, ◌≢◌, Bool, true, false, List, [], arith,
  ℕ_discrete, ◌==◌, if◌then◌else◌, length, set, get_or, get_or-set_ne, get_or-set_self, length-set,
  length-replicate, get_or-replicate,
}
use mars.Lpi.{LpiAllocator, new, Word, write_bit, all_ones, word_at, word_zero}

-- The bitmap covers the range, with less than a word to spare, and all words before the hint are full.
pub record IsValid (a : LpiAllocator) : Type 0 where
  pub words : HasWords a.bitmap
  pub ordered : a.base_id ≤ a.max_id
  pub room : a.max_id + 64 < 2 ^ 32
  pub size : length a.bitmap ≡ (a.max_id - a.base_id + 64) / 64
  pub hint_in : a.hint < length a.bitmap
  pub full : (j : ℕ) → j < a.hint → all_ones (word_at a.bitmap j) ≡ true

-- The interrupt is handed out or reserved.
abbrev pub in_use : LpiAllocator → ℕ → Bool
in_use a id = bit_at a.bitmap (id - a.base_id)

-- From `a` to `a'` the interrupt `id` alone has changed, to `v`.
pub record Updated (a : LpiAllocator) (id : ℕ) (v : Bool) (a' : LpiAllocator) : Type 0 where
  pub base_same : a'.base_id ≡ a.base_id
  pub max_same : a'.max_id ≡ a.max_id
  pub changed : (k : ℕ) → a.base_id ≤ k → in_use a' k ≡ (if k == id then v else in_use a k)
  pub valid : IsValid a'

new-size :
    (base_id max_id : ℕ)
    → base_id ≤ max_id
    → max_id + 64 < 2 ^ 32
    → length (new base_id max_id).bitmap ≡ (max_id - base_id + 64) / 64
unfolding new
new-size base_id max_id h room = length-replicate _ word_zero ∙ omega arith

new-words : (base_id max_id : ℕ) → HasWords (new base_id max_id).bitmap
unfolding new
new-words base_id max_id = HasWords-replicate _ word_zero refl

new-free :
    (base_id max_id i b : ℕ)
    → i < length (new base_id max_id).bitmap
    → b < 64
    → get_or (word_at (new base_id max_id).bitmap i) b false ≡ false
unfolding new
new-free base_id max_id i b lt lb =
    rw (get_or-replicate _ word_zero [] i (rw length-replicate at lt))
      (get_or-replicate 64 false false b lb)

-- For a range that is not empty, and whose end leaves room for a word in 32 bits, a new allocator is
-- valid and has every interrupt of the range free.
pub new-IsValid :
    (base_id max_id : ℕ)
    → base_id ≤ max_id
    → max_id + 64 < 2 ^ 32
    → IsValid (new base_id max_id)
      × ((id : ℕ) → id ≤ max_id → in_use (new base_id max_id) id ≡ false)
unfolding new
new-IsValid base_id max_id h room = (
  record {
    words = new-words base_id max_id;
    ordered = h;
    room = room;
    size = new-size base_id max_id h room;
    hint_in = omega (arith, new-size base_id max_id h room);
    full = λ j lt. absurd (omega arith);
  },
  λ id le.
      new-free base_id max_id _ _ (omega (arith, new-size base_id max_id h room)) (omega arith),
)

pub word-changed :
    (bitmap : List Word) (i b j : ℕ) (v : Bool)
    → i ≢ j
    → all_ones (word_at (write_bit bitmap i b v) j) ≡ all_ones (word_at bitmap j)
word-changed bitmap i b j v ne =
    ap all_ones (get_or-set_ne bitmap i j (set (word_at bitmap i) b v) [] ne)

-- A full word stays full under a write of a one.
pub full-write_bit :
    (bitmap : List Word) (i b j : ℕ)
    → i < length bitmap
    → all_ones (word_at bitmap j) ≡ true
    → all_ones (word_at (write_bit bitmap i b true) j) ≡ true
full-write_bit bitmap i b j lt h = elim (ℕ_discrete i j) [
  | no ne ↦ word-changed bitmap i b j true ne ∙ h
  | yes e ↦
      rw (← e, get_or-set_self bitmap i (set (word_at bitmap i) b true) [] lt)
        (all_ones-set (word_at bitmap i) b (rw e h))
]

module _ {a : LpiAllocator} (valid : IsValid a) (id : ℕ) (above : a.base_id ≤ id)
    (below : id ≤ a.max_id) where
  abbrev pub marked : Bool → ℕ → LpiAllocator
  marked v hint = record a {
    bitmap = write_bit a.bitmap ((id - a.base_id) / 64) ((id - a.base_id) % 64) v;
    hint = hint;
  }

  pub word_in : (id - a.base_id) / 64 < length a.bitmap
  word_in = omega (arith, valid.size)

  marked-changed :
      (v : Bool) (hint k : ℕ)
      → a.base_id ≤ k
      → in_use (marked v hint) k ≡ (if k == id then v else in_use a k)
  marked-changed v hint k le =
      bit_at-write_bit a.bitmap (id - a.base_id) (k - a.base_id) v valid.words word_in
      ∙ ground arith

  -- Writing one bit, with a hint that all words before are full, is an update.
  pub marked-Updated :
      (v : Bool) (hint : ℕ)
      → hint < length a.bitmap
      → ((j : ℕ) → j < hint → all_ones (word_at (marked v hint).bitmap j) ≡ true)
      → Updated a id v (marked v hint)
  marked-Updated v hint lt full = record {
    base_same = refl;
    max_same = refl;
    changed = marked-changed v hint;
    valid = record {
      words = HasWords-set a.bitmap _ _ valid.words (
          length-set (word_at a.bitmap ((id - a.base_id) / 64)) _ _
          ∙ length-word_at a.bitmap _ valid.words word_in);
      ordered = valid.ordered;
      room = valid.room;
      size = length-set a.bitmap _ _ ∙ valid.size;
      hint_in = rw length-set lt;
      full = full;
    };
  }
