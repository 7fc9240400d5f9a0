-- ===== src/Tests/Sleeping.antt =====
-- Inputs for Sync/SleepingMutex: one thread has the mutex, and another asks for it.
use mars.Sync.SleepingMutex.{
  Sleepers, Later, advance, advanced, all_trying, blocking, inside, further, new_mutex,
  blocks_for_ever, here,
}
use mars.Prelude.{◌≡◌, refl, true, arith, ℕ_discrete}

abbrev contended : Sleepers
contended = advanced (advanced (advanced (advanced all_trying 0) 1) 1) 1

contended-Later : Later 2 all_trying contended
contended-Later =
    further (further (further (further here 0 (omega arith)) 1 (omega arith)) 1 (omega arith)) 1
      (omega arith)

contended-blocking : contended.stage 1 ≡ blocking
unfolding advance ℕ_discrete
contended-blocking = refl

-- The owner goes on, to release the mutex, and the other thread tries again.
abbrev afterwards : Sleepers
afterwards = advanced (advanced contended 0) 1

afterwards-inside : afterwards.stage 0 ≡ inside
unfolding advance ℕ_discrete
afterwards-inside = refl

-- Without contention the mutex is taken and released.
released : (advanced (advanced (advanced (advanced all_trying 0) 0) 0) 0).mutex ≡ new_mutex
unfolding advance ℕ_discrete
released = refl

blocks_for_ever_example : (afterwards.stage 1 ≡ blocking) × (afterwards.mutex.queue_locked ≡ true)
blocks_for_ever_example =
    blocks_for_ever contended-Later 1 (omega arith) contended-blocking
      (further (further here 0 (omega arith)) 1 (omega arith))
