-- ===== src/Tests/Lpi.antt =====
-- Inputs for Lpi: an allocator of 9 interrupts, one that is full up to its last word, and more.

use mars.Lpi.Alloc.{AllocOutcome, alloc-outcome}
use mars.Lpi.Valid.{IsValid, new-IsValid}
use mars.Prelude.{◌≡◌, refl, none, some, arith}
use mars.Lpi.{LpiAllocator, new, alloc, free}

abbrev small : LpiAllocator
small = new 8192 8200

small-IsValid : IsValid small
small-IsValid = (new-IsValid 8192 8200 (omega arith) (omega arith)).0

-- The first interrupt is handed out first, and is free again after `free`.
alloc_twice :
    let (first, a) = alloc small in
    let (second, b) = alloc a in
    (first ≡ some 8192) × (second ≡ some 8193) × ((alloc (free b 8192)).0 ≡ some 8192)
unfolding alloc free new
alloc_twice = (refl, refl, refl)

-- A range of one interrupt is used up after one call.
alloc_last : (alloc (alloc (new 8192 8192)).1).0 ≡ none
unfolding alloc new
alloc_last = refl

alloc-outcome_example : AllocOutcome small (alloc small)
alloc-outcome_example = alloc-outcome small small-IsValid
