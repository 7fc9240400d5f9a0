-- ===== src/Scheduler/ThreadIds.antt =====
-- klib/src/thread.rs, lines 16 to 40: `ThreadIdAllocator`. The pool is its `next_id`, a `u32`; the lock
-- around it is left out, so each call runs as one step.
use mars.Prelude.{ℕ, zero, suc, ◌+◌, ◌%◌, ◌^◌, ◌<◌, ◌≡◌, ◌≢◌, some, List, [], ◌∷◌, arith, get_elem?}

pub data Call : Type 0 where
  allocates : Call
  frees : ℕ → Call

-- `ThreadIdAllocator::new`.
abbrev pub first_id : ℕ
first_id = 0

-- `ThreadIdAllocator::alloc`: the number, and the pool behind it.
unfoldable pub alloc_id : ℕ → ℕ × ℕ
alloc_id next_id = (next_id, (next_id + 1) % 2 ^ 32)

-- `ThreadIdAllocator::free`.
unfoldable pub free_id : ℕ → ℕ → ℕ
free_id next_id id = next_id

-- The numbers that a sequence of calls hands out.
unfoldable pub handed_out : ℕ → List Call → List ℕ
unfolding alloc_id free_id
handed_out next_id [] = []
handed_out next_id (allocates ∷ calls) =
    let (id, next_id') = alloc_id next_id in id ∷ handed_out next_id' calls
handed_out next_id (frees id ∷ calls) = handed_out (free_id next_id id) calls

handed_out-nth :
    (next_id : ℕ) (calls : List Call) (i : ℕ) {id : ℕ}
    → next_id < 2 ^ 32
    → get_elem? (handed_out next_id calls) i ≡ some id
    → id ≡ (next_id + i) % 2 ^ 32
unfolding handed_out alloc_id free_id
handed_out-nth next_id [] i h e = cc
handed_out-nth next_id (allocates ∷ calls) zero {id} h e =
    let same : next_id ≡ id = cc in omega arith
handed_out-nth next_id (allocates ∷ calls) (suc i) h e =
    let rest = handed_out-nth ((next_id + 1) % 2 ^ 32) calls i (omega arith) e in omega arith
handed_out-nth next_id (frees id' ∷ calls) i h e = handed_out-nth next_id calls i h e

-- Of the numbers that a new allocator hands out, in whatever order it is called to allocate and to
-- free, two at different places among the first 2 ^ 32 are different.
pub handed_out-distinct :
    (calls : List Call) (i j : ℕ) {id id' : ℕ}
    → i < 2 ^ 32
    → j < 2 ^ 32
    → i ≢ j
    → get_elem? (handed_out first_id calls) i ≡ some id
    → get_elem? (handed_out first_id calls) j ≡ some id'
    → id ≢ id'
handed_out-distinct calls i j h g ne e f same =
    let at_i = handed_out-nth first_id calls i (omega arith) e in
    let at_j = handed_out-nth first_id calls j (omega arith) f in ne (omega arith)
