-- ===== src/Tests/ThreadIds.antt =====
-- Inputs for Scheduler/ThreadIds: two threads, the first of which ends before the second begins.
use mars.Scheduler.ThreadIds.{Call, handed_out, handed_out-distinct, allocates, first_id, frees}
use mars.Prelude.{ℕ, ◌≡◌, refl, ◌≢◌, some, List, [], ◌∷◌, arith, get_elem?}

abbrev two_threads : List Call
two_threads = allocates ∷ frees 0 ∷ allocates ∷ []

two_ids : handed_out first_id two_threads ≡ 0 ∷ 1 ∷ []
unfolding handed_out
two_ids = refl

two_ids-first : get_elem? (handed_out first_id two_threads) 0 ≡ some 0
unfolding handed_out
two_ids-first = refl

two_ids-second : get_elem? (handed_out first_id two_threads) 1 ≡ some 1
unfolding handed_out
two_ids-second = refl

handed_out-distinct_example : ◌≢◌ {A = ℕ} 0 1
handed_out-distinct_example =
    handed_out-distinct two_threads 0 1 (omega arith) (omega arith) (omega arith) two_ids-first
      two_ids-second
