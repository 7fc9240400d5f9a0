-- ===== src/Sync/Spinlock.antt =====
-- klib/src/sync.rs, lines 139 to 209: `UnfairSpinlock`, with the step relation of threads that take it
-- and drop the guard. `steal`, which is unsafe, is left out.
use mars.Prelude.{ℕ, ◌+◌, ◌<◌, ◌≡◌, refl, Bool, true, false, arith, if◌then◌else◌}
use mars.Prelude.Family.{sum_below, update, sum_below-update, sum_below-zero}

pub data Holder : Type 0 where
  without : Holder  -- outside, or in the loop of `lock`
  with_guard : Holder

-- The next access of a thread: the compare-exchange of `lock`, or the store of `unlock`.
unfoldable pub try_access : Bool → Holder → Bool × Holder
try_access locked without = if locked then (locked, without) else (true, with_guard)
try_access locked with_guard = (false, without)

pub record SpinSystem : Type 0 where
  pub locked : Bool
  pub holder : ℕ → Holder

-- `UnfairSpinlock::new`.
abbrev pub no_holder : SpinSystem
no_holder = record { locked = false; holder = λ i. without }

abbrev pub tried : SpinSystem → ℕ → SpinSystem
tried s i = record {
  locked = (try_access s.locked (s.holder i)).0;
  holder = update s.holder i (try_access s.locked (s.holder i)).1;
}

-- What `n` threads can come to.
pub data SpinRuns (n : ℕ) : SpinSystem → Type 0 where
  begin : SpinRuns n no_holder
  goes : {s : SpinSystem} → SpinRuns n s → (i : ℕ) → i < n → SpinRuns n (tried s i)

abbrev pub guards : Holder → ℕ
guards without = 0
guards with_guard = 1

abbrev pub bit : Bool → ℕ
bit true = 1
bit false = 0

try_access-bit :
    (locked : Bool) (h : Holder) (held held' : ℕ)
    → held ≡ bit locked
    → held' + guards h ≡ held + guards (try_access locked h).1
    → held' ≡ bit (try_access locked h).0
unfolding try_access
try_access-bit true without held held' e sums = omega arith
try_access-bit false without held held' e sums = omega arith
try_access-bit true with_guard held held' e sums = omega arith
try_access-bit false with_guard held held' e sums = omega arith

-- However any number of threads interleave, the number of those that have the guard is 1 while the
-- lock's flag is set, and 0 otherwise.
pub flag_counts :
    {n : ℕ} {s : SpinSystem} → SpinRuns n s → sum_below guards n s.holder ≡ bit s.locked
flag_counts {n} begin = sum_below-zero guards n no_holder.holder λ i. refl
flag_counts {n} (goes {s = s} r i lt) =
    try_access-bit s.locked (s.holder i) _ _ (flag_counts r)
      (sum_below-update guards n s.holder i _ lt)
