-- ===== src/Lpi/Alloc.antt =====
-- klib/src/interrupt/gicv3/lpi_alloc.rs: `alloc` finds a free interrupt whenever there is one.
use native.Mathlib.Nat.{mod-eq_of_lt}
use mars.Lpi.Bits.{
  length-word_at, get_or-all_ones, trailing_ones-zero, get_or-below_trailing_ones, write_bit-undo,
}
use mars.Lpi.Valid.{in_use, IsValid, Updated, marked-Updated, full-write_bit}
use mars.Prelude.{
  subst, ℕ, zero, suc, ◌+◌, ◌-◌, ◌*◌, ◌/◌, ◌%◌, ◌^◌, ◌≤◌, ◌<◌, ◌≡◌, refl, ap₂, ◌⊎◌, inl, inr, true,
  false, Option, none, some, arith, dec_lt, ℕ_discrete, lt→ltb, Bool-cases, length,
}
use mars.Lpi.{LpiAllocator, all_ones, word_at, trailing_ones, alloc_loop, write_bit, alloc}

-- The allocator has handed out an interrupt that was free, or has none that is free.
abbrev pub AllocOutcome : LpiAllocator → Option ℕ × LpiAllocator → Type 0
AllocOutcome a (some id, a') =
    (a.base_id ≤ id) × (id ≤ a.max_id) × (in_use a id ≡ false) × Updated a id true a'
AllocOutcome a (none, a') =
    ((id : ℕ) → a.base_id ≤ id → id ≤ a.max_id → in_use a id ≡ true)
    × (a'.bitmap ≡ a.bitmap)
    × (a'.base_id ≡ a.base_id)
    × (a'.max_id ≡ a.max_id)
    × IsValid a'

-- Word `i` has no zero for an interrupt of the range.
abbrev IsUsedUp : LpiAllocator → ℕ → Type 0
IsUsedUp a i =
    all_ones (word_at a.bitmap i) ≡ false
    → a.max_id < a.base_id + i * 64 + trailing_ones (word_at a.bitmap i)

module _ (a : LpiAllocator) (v : IsValid a) where
  abbrev place : ℕ → ℕ
  place k = (a.hint + k) % length a.bitmap

  place-lt : (k : ℕ) → place k < length a.bitmap
  place-lt k = omega (arith, v.hint_in)

  abbrev id_at : ℕ → ℕ
  id_at i = a.base_id + i * 64 + trailing_ones (word_at a.bitmap i)

  -- A zero in a word, as `trailing_ones` finds it.
  zero-lt :
      (i : ℕ)
      → i < length a.bitmap
      → all_ones (word_at a.bitmap i) ≡ false
      → trailing_ones (word_at a.bitmap i) < 64
  zero-lt i lt h =
      rw (length-word_at a.bitmap i v.words lt) at ((trailing_ones-zero (word_at a.bitmap i) h).0)

  -- In a word with a zero, only of the last word the zero can lie behind the range.
  UsedUp-full :
      (i j : ℕ) → j < i → i < length a.bitmap → IsUsedUp a j → all_ones (word_at a.bitmap j) ≡ true
  UsedUp-full i j lt lt' u = elim (Bool-cases (all_ones (word_at a.bitmap j))) [
    | inl h ↦ h
    | inr h ↦ absurd (omega (arith, u h, zero-lt j (omega arith) h, v.size, v.ordered))
  ]

  -- All words used up: every interrupt of the range is in use.
  UsedUp-in_use :
      ((i : ℕ) → i < length a.bitmap → IsUsedUp a i)
      → (id : ℕ) → a.base_id ≤ id
      → id ≤ a.max_id
      → in_use a id ≡ true
  UsedUp-in_use u id above below =
      let lt : (id - a.base_id) / 64 < length a.bitmap = omega (arith, v.size) in
      elim (Bool-cases (all_ones (word_at a.bitmap ((id - a.base_id) / 64)))) [
        | inl h ↦
            get_or-all_ones (word_at a.bitmap ((id - a.base_id) / 64)) ((id - a.base_id) % 64) h
              (rw (length-word_at a.bitmap _ v.words lt) (omega arith))
        | inr h ↦
            get_or-below_trailing_ones (word_at a.bitmap ((id - a.base_id) / 64))
              ((id - a.base_id) % 64) (omega (arith, u ((id - a.base_id) / 64) lt h))
      ]

  -- One round, by what it finds.
  round-full :
      (rounds k : ℕ)
      → all_ones (word_at a.bitmap (place k)) ≡ true
      → alloc_loop (suc rounds) k a ≡ alloc_loop rounds (k + 1) a
  unfolding alloc_loop
  round-full rounds k h = rw h

  id-fits :
      (i : ℕ)
      → i < length a.bitmap
      → all_ones (word_at a.bitmap i) ≡ false
      → (a.base_id + i * 64 % 2 ^ 32 + trailing_ones (word_at a.bitmap i)) % 2 ^ 32 ≡ id_at i
  id-fits i lt h = omega (arith, zero-lt i lt h, v.size, v.room, v.ordered)

  round-found :
      (rounds k : ℕ)
      → all_ones (word_at a.bitmap (place k)) ≡ false
      → id_at (place k) ≤ a.max_id
      → alloc_loop (suc rounds) k a ≡ (
        some (id_at (place k)),
        record a {
          bitmap = write_bit a.bitmap (place k) (trailing_ones (word_at a.bitmap (place k))) true;
          hint = place k;
        },
      )
  unfolding alloc_loop
  round-found rounds k h le = rw (h, id-fits (place k) (place-lt k) h) (ground arith)

  round-behind :
      (rounds k : ℕ)
      → all_ones (word_at a.bitmap (place k)) ≡ false
      → a.max_id < id_at (place k)
      → alloc_loop (suc rounds) k a ≡ alloc_loop rounds (k + 1) (record a { hint = place k })
  unfolding alloc_loop
  round-behind rounds k h lt =
      let zero_bit = trailing_ones-zero (word_at a.bitmap (place k)) h in
      let undo =
        write_bit-undo a.bitmap (place k) (trailing_ones (word_at a.bitmap (place k))) (place-lt k)
          zero_bit.0 zero_bit.1 in
      rw (h, id-fits (place k) (place-lt k) h, lt→ltb _ _ lt, undo) refl

  -- What a round hands out is an update of one free interrupt.
  module _ (i : ℕ) (lt : i < length a.bitmap) (h : all_ones (word_at a.bitmap i) ≡ false)
      (le : id_at i ≤ a.max_id)
      (full : (j : ℕ) → j < i → all_ones (word_at a.bitmap j) ≡ true) where
    abbrev bit : ℕ
    bit = trailing_ones (word_at a.bitmap i)

    word_index : (id_at i - a.base_id) / 64 ≡ i
    word_index = omega (arith, zero-lt i lt h)

    bit_index : (id_at i - a.base_id) % 64 ≡ bit
    bit_index = omega (arith, zero-lt i lt h)

    found-free : in_use a (id_at i) ≡ false
    found-free = rw (word_index, bit_index) (trailing_ones-zero (word_at a.bitmap i) h).1

    found-Updated :
        Updated a (id_at i) true (record a { bitmap = write_bit a.bitmap i bit true; hint = i })
    found-Updated =
        subst (Updated a (id_at i) true)
          (ap₂ (λ (x y : ℕ). record a { bitmap = write_bit a.bitmap x y true; hint = i }) word_index
            bit_index)
          (marked-Updated v (id_at i) (omega arith) le true i lt
            (λ j below. full-write_bit a.bitmap _ _ j (rw word_index lt) (full j below)))

abbrev AllUsedUp : LpiAllocator → Type 0
AllUsedUp a = (i : ℕ) → i < length a.bitmap → IsUsedUp a i

-- The loop has found nothing; only the hint may have moved.
record Nothing (a : LpiAllocator) (out : Option ℕ × LpiAllocator) : Type 0 where
  result : out.0 ≡ none
  bitmap_same : out.1.bitmap ≡ a.bitmap
  base_same : out.1.base_id ≡ a.base_id
  max_same : out.1.max_id ≡ a.max_id
  valid : IsValid out.1

hint-IsValid :
    (a : LpiAllocator) (v : IsValid a) (i : ℕ)
    → i < length a.bitmap
    → AllUsedUp a
    → IsValid (record a { hint = i })
hint-IsValid a v i lt u = record {
  words = v.words;
  ordered = v.ordered;
  room = v.room;
  size = v.size;
  hint_in = lt;
  full = λ j below. UsedUp-full a v i j below lt (u j (omega arith));
}

Nothing-hint :
    {a : LpiAllocator} {i : ℕ} {out : Option ℕ × LpiAllocator}
    → Nothing (record a { hint = i }) out
    → Nothing a out
Nothing-hint n = record {
  result = n.result;
  bitmap_same = n.bitmap_same;
  base_same = n.base_same;
  max_same = n.max_same;
  valid = n.valid;
}

no_rounds : (k : ℕ) (a : LpiAllocator) → alloc_loop 0 k a ≡ (none, a)
unfolding alloc_loop
no_rounds k a = refl

-- With nothing to find the remaining rounds find nothing, wherever they look.
used_up-Nothing :
    (rounds k : ℕ) (a : LpiAllocator) → IsValid a → AllUsedUp a → Nothing a (alloc_loop rounds k a)
used_up-Nothing zero k a v u =
    rw (no_rounds k a)
      (record { result = refl; bitmap_same = refl; base_same = refl; max_same = refl; valid = v })
used_up-Nothing (suc rounds) k a v u =
    elim (Bool-cases (all_ones (word_at a.bitmap (place a v k)))) [
      | inl h ↦ rw (round-full a v rounds k h) (used_up-Nothing rounds (k + 1) a v u)
      | inr h ↦ rw (round-behind a v rounds k h (u (place a v k) (place-lt a v k) h)) (
          Nothing-hint (
            used_up-Nothing rounds (k + 1) (record a { hint = place a v k })
              (hint-IsValid a v (place a v k) (place-lt a v k) u) u))
    ]

Nothing-outcome :
    (a : LpiAllocator) (out : Option ℕ × LpiAllocator)
    → IsValid a
    → AllUsedUp a
    → Nothing a out
    → AllocOutcome a out
Nothing-outcome a (some id, a') v u n = cc (n.result)
Nothing-outcome a (none, a') v u n =
    (UsedUp-in_use a v u, n.bitmap_same, n.base_same, n.max_same, n.valid)

-- The words that the loop has passed are full; `k` rounds have been made.
abbrev Passed : LpiAllocator → ℕ → Type 0
Passed a k = (j : ℕ) → j < a.hint + k → j < length a.bitmap → all_ones (word_at a.bitmap j) ≡ true

Passed-next :
    (a : LpiAllocator) (k : ℕ)
    → Passed a k
    → all_ones (word_at a.bitmap (a.hint + k)) ≡ true
    → Passed a (k + 1)
Passed-next a k p h j lt lt' = elim (ℕ_discrete j (a.hint + k)) [
  | yes e ↦ rw e h
  | no ne ↦ p j (omega arith) lt'
]

-- Once the loop has passed all words up to the last one that can have a free interrupt behind the
-- range, everything is used up.
Passed-UsedUp :
    (a : LpiAllocator) (v : IsValid a) (k : ℕ)
    → Passed a k
    → (length a.bitmap ≤ a.hint + k)
      ⊎ ((a.hint + k < length a.bitmap)
          × IsUsedUp a (a.hint + k)
          × (all_ones (word_at a.bitmap (a.hint + k)) ≡ false))
    → AllUsedUp a
Passed-UsedUp a v k p (inl beyond) i lt h = cc (h, p i (omega arith) lt)
Passed-UsedUp a v k p (inr (inside, used, zero_bit)) i lt h = elim (dec_lt i (a.hint + k)) [
  | yes before ↦ cc (h, p i before lt)
  | no after ↦ elim (ℕ_discrete i (a.hint + k)) [
    | yes e ↦ rw e (used zero_bit)
    | no ne ↦
        absurd (
          omega (arith, used zero_bit, zero-lt a v (a.hint + k) inside zero_bit, v.size, v.ordered))
  ]
]

loop-found :
    (rounds k : ℕ) (a : LpiAllocator) (v : IsValid a)
    → all_ones (word_at a.bitmap (place a v k)) ≡ false
    → id_at a v (place a v k) ≤ a.max_id
    → ((j : ℕ) → j < place a v k → all_ones (word_at a.bitmap j) ≡ true)
    → AllocOutcome a (alloc_loop (suc rounds) k a)
loop-found rounds k a v h le full =
    let lt = place-lt a v k in
    rw (round-found a v rounds k h le) (
      omega arith,
      le,
      found-free a v (place a v k) lt h le full,
      found-Updated a v (place a v k) lt h le full,
    )

loop-outcome :
    (rounds k : ℕ) (a : LpiAllocator)
    → IsValid a
    → rounds + k ≡ length a.bitmap
    → Passed a k
    → AllocOutcome a (alloc_loop rounds k a)
loop-outcome zero k a v e p =
    let u = Passed-UsedUp a v k p (inl (omega arith)) in
    Nothing-outcome a _ v u (used_up-Nothing zero k a v u)
loop-outcome (suc rounds) k a v e p = elim (dec_lt (a.hint + k) (length a.bitmap)) [
  | no beyond ↦
      (let u = Passed-UsedUp a v k p (inl (omega arith)) in
        Nothing-outcome a _ v u (used_up-Nothing (suc rounds) k a v u))
  | yes inside ↦
      (let here : (a.hint + k) % length a.bitmap ≡ a.hint + k = mod-eq_of_lt inside in
        elim (Bool-cases (all_ones (word_at a.bitmap (a.hint + k)))) [
          | inl h ↦
              rw (round-full a v rounds k (rw here h))
                (loop-outcome rounds (k + 1) a v (omega arith) (Passed-next a k p h))
          | inr h ↦ elim (dec_lt a.max_id (id_at a v (a.hint + k))) [
            | yes behind ↦
                (let u = Passed-UsedUp a v k p (inr (inside, (λ w. behind), h)) in
                  Nothing-outcome a _ v u (used_up-Nothing (suc rounds) k a v u))
            | no found ↦
                loop-found rounds k a v (rw here h) (rw here (omega arith))
                  (λ j lt. p j (rw here at lt) (omega (arith, place-lt a v k)))
          ]
        ])
]

-- On a valid allocator `alloc` either hands out an interrupt of the range that was free, marks it and
-- nothing else, and keeps the allocator valid; or it returns nothing, and then every interrupt of
-- the range is in use, the bitmap is as it was, and the allocator is valid.
pub alloc-outcome : (a : LpiAllocator) → IsValid a → AllocOutcome a (alloc a)
unfolding alloc
alloc-outcome a v =
    loop-outcome (length a.bitmap) 0 a v (omega arith) (λ j lt lt'. v.full j (omega arith))
