-- ===== src/Tests/Locks.antt =====
-- Inputs for Sync/TicketLock and Sync/Spinlock: two threads, one of which has the lock.
use mars.Sync.TicketSafety.{ticket_exclusion}
use mars.Prelude.Family.{sum_below}
use mars.Sync.Spinlock.{
  SpinSystem, try_access, tried, guards, no_holder, bit, flag_counts, SpinRuns,
}
use mars.Sync.TicketLock.{Threads, Runs, accessed, ticket_access, holding, all_outside}
use mars.Prelude.{◌≡◌, refl, ◌≢◌, true, arith, ℕ_discrete}

abbrev first_in : Threads
first_in = accessed (accessed (accessed all_outside 0) 1) 0

first_in-Runs : Runs 2 first_in
first_in-Runs =
    Runs.goes (Runs.goes (Runs.goes Runs.begin 0 (omega arith)) 1 (omega arith)) 0 (omega arith)

first_in-holding : first_in.place 0 ≡ holding 0
unfolding ticket_access ℕ_discrete
first_in-holding = refl

-- The second thread gets in once the first is out.
second_in : (accessed (accessed first_in 0) 1).place 1 ≡ holding 1
unfolding ticket_access ℕ_discrete
second_in = refl

ticket_exclusion_example : first_in.place 1 ≢ holding 0
ticket_exclusion_example =
    ticket_exclusion (omega arith) first_in-Runs 0 1 0 0 (omega arith) (omega arith) (omega arith)
      first_in-holding

abbrev taken : SpinSystem
taken = tried (tried no_holder 0) 1

flag_counts_example : sum_below guards 2 taken.holder ≡ bit taken.locked
flag_counts_example =
    flag_counts (SpinRuns.goes (SpinRuns.goes SpinRuns.begin 0 (omega arith)) 1 (omega arith))

taken-locked : taken.locked ≡ true
unfolding try_access ℕ_discrete
taken-locked = refl
