-- ===== src/Sync/SleepingMutex.antt =====
-- klib/src/sync.rs, lines 13 to 107: `SleepingMutex`, with `block_current` of klib/src/scheduler.rs. A
-- step of a thread makes one atomic access; the scheduler's own queues and the switch to another
-- thread (`yield_now`) are left out, so a thread that yields may go on at any time.
use mars.Prelude.{
  ℕ, ◌+◌, ◌≤◌, ◌<◌, ◌≡◌, refl, sym, ap, ◌∙◌, ◌≢◌, if_pos, if_neg, Bool, true, false, List, [], ◌∷◌,
  ◌++◌, arith, ℕ_discrete, if◌then◌else◌,
}
use mars.Prelude.Family.{sum_below, update, sum_below-update, sum_below-zero, weight-le-sum_below}

-- `queue_locked` is the flag of the spinlock around `wait_queue`.
pub record SleepingMutex : Type 0 where
  pub locked : Bool
  pub queue_locked : Bool
  pub wait_queue : List ℕ

-- `SleepingMutex::new`.
abbrev pub new_mutex : SleepingMutex
new_mutex = record { locked = false; queue_locked = false; wait_queue = [] }

-- Where a thread stands.
pub data Stage : Type 0 where
  trying : Stage  -- outside, or at the top of the loop of `lock`
  queueing : Stage  -- at `self.wait_queue.lock()` of `lock`
  retrying : Stage  -- has the queue, before the second compare-exchange
  lucky : Stage  -- has the mutex, and drops the queue's guard
  blocking : Stage  -- at `wait_queue.lock()` of `block_current`, with the queue's guard of `lock`
  parking : Stage  -- has both guards of the queue
  leaving : Stage  -- back from `block_current`, before the guard of `lock` is dropped
  inside : Stage  -- holds the mutex's guard, before `self.wait_queue.lock()` of `unlock`
  unlocking : Stage  -- has the queue in `unlock`
  waking : Stage  -- has cleared `locked`

abbrev pub pop_front : List ℕ → List ℕ
pop_front [] = []
pop_front (t ∷ ts) = ts

-- `block_current` with the queue locked: thread `i` joins the queue, and the guard is dropped.
abbrev pub park : ℕ → SleepingMutex → SleepingMutex
park i m = record m { queue_locked = false; wait_queue = m.wait_queue ++ i ∷ [] }

-- The next access of thread `i`.
unfoldable pub advance : ℕ → SleepingMutex → Stage → SleepingMutex × Stage
advance i m trying = if m.locked then (m, queueing) else (record m { locked = true }, inside)
advance i m queueing =
    if m.queue_locked then (m, queueing) else (record m { queue_locked = true }, retrying)
advance i m retrying = if m.locked then (m, blocking) else (record m { locked = true }, lucky)
advance i m lucky = (record m { queue_locked = false }, inside)
advance i m blocking =
    if m.queue_locked then (m, blocking) else (record m { queue_locked = true }, parking)
advance i m parking = (park i m, leaving)
advance i m leaving = (record m { queue_locked = false }, trying)
advance i m inside =
    if m.queue_locked then (m, inside) else (record m { queue_locked = true }, unlocking)
advance i m unlocking = (record m { locked = false }, waking)
advance i m waking =
    (record m { queue_locked = false; wait_queue = pop_front m.wait_queue }, trying)

pub record Sleepers : Type 0 where
  pub mutex : SleepingMutex
  pub stage : ℕ → Stage

abbrev pub all_trying : Sleepers
all_trying = record { mutex = new_mutex; stage = λ i. trying }

abbrev pub advanced : Sleepers → ℕ → Sleepers
advanced s i = record {
  mutex = (advance i s.mutex (s.stage i)).0;
  stage = update s.stage i (advance i s.mutex (s.stage i)).1;
}

-- What `n` threads can come to from `s`.
pub data Later (n : ℕ) (s : Sleepers) : Sleepers → Type 0 where
  here : Later n s s
  further : {t : Sleepers} → Later n s t → (i : ℕ) → i < n → Later n s (advanced t i)

-- The stages at which the queue's spinlock is held.
abbrev pub holds_queue : Stage → ℕ
holds_queue retrying = 1
holds_queue lucky = 1
holds_queue blocking = 1
holds_queue unlocking = 1
holds_queue waking = 1
holds_queue _ = 0

-- No thread gets to park, and the flag is set for the one thread that holds the queue.
record Inv (n : ℕ) (s : Sleepers) : Type 0 where
  counted : sum_below holds_queue n s.stage ≡ (if s.mutex.queue_locked then 1 else 0)
  nobody_parks : (i : ℕ) → i < n → (s.stage i ≢ parking) × (s.stage i ≢ leaving)

module _ (i : ℕ) (m : SleepingMutex) (held held' : ℕ) where
  advance-counted :
      (p : Stage)
      → held ≡ (if m.queue_locked then 1 else 0)
      → holds_queue p ≤ held
      → (p ≢ parking) × (p ≢ leaving)
      → held' + holds_queue p ≡ held + holds_queue (advance i m p).1
      → (held' ≡ (if (advance i m p).0.queue_locked then 1 else 0))
        × ((advance i m p).1 ≢ parking)
        × ((advance i m p).1 ≢ leaving)
  unfolding advance
  advance-counted trying e le ne sums = ground arith
  advance-counted queueing e le ne sums = ground arith
  advance-counted retrying e le ne sums = ground arith
  advance-counted lucky e le ne sums = ground arith
  advance-counted blocking e le ne sums = ground arith
  advance-counted parking e le ne sums = ground arith
  advance-counted leaving e le ne sums = ground arith
  advance-counted inside e le ne sums = ground arith
  advance-counted unlocking e le ne sums = ground arith
  advance-counted waking e le ne sums = ground arith

module _ {n : ℕ} {s : Sleepers} (inv : Inv n s) (i : ℕ) (lt : i < n) where
  stepped :
      (sum_below holds_queue n (advanced s i).stage
        ≡ (if (advanced s i).mutex.queue_locked then 1 else 0))
      × ((advance i s.mutex (s.stage i)).1 ≢ parking)
      × ((advance i s.mutex (s.stage i)).1 ≢ leaving)
  stepped =
      advance-counted i s.mutex _ _ (s.stage i) inv.counted
        (weight-le-sum_below holds_queue n s.stage i lt) (inv.nobody_parks i lt)
        (sum_below-update holds_queue n s.stage i _ lt)

  advanced-Inv : Inv n (advanced s i)
  advanced-Inv = record {
    counted = stepped.0;
    nobody_parks = λ j h. elim (ℕ_discrete j i) [
      | yes same ↦ rw (if_pos (ℕ_discrete j i) same) (stepped.1, stepped.2)
      | no other ↦ rw (if_neg (ℕ_discrete j i) other) (inv.nobody_parks j h)
    ];
  }

Later-Inv : {n : ℕ} {s t : Sleepers} → Inv n s → Later n s t → Inv n t
Later-Inv inv here = inv
Later-Inv inv (further r i lt) = advanced-Inv (Later-Inv inv r) i lt

all_trying-Inv : (n : ℕ) → Inv n all_trying
all_trying-Inv n = record {
  counted = sum_below-zero holds_queue n all_trying.stage λ i. refl;
  nobody_parks = λ i lt. ((λ e. cc), λ e. cc);
}

-- A thread that blocks finds the flag set, which is its own, and stays where it is.
blocked :
    (i : ℕ) (m : SleepingMutex) (p : Stage)
    → p ≡ blocking
    → 1 ≤ (if m.queue_locked then 1 else 0)
    → advance i m p ≡ (m, blocking)
unfolding advance
blocked i m blocking e h = ground arith
blocked i m p e h = cc

blocking-flag :
    {n : ℕ} {s : Sleepers}
    → Inv n s
    → (i : ℕ) → i < n
    → s.stage i ≡ blocking
    → 1 ≤ (if s.mutex.queue_locked then 1 else 0)
blocking-flag {n} {s} inv i lt e =
    omega (arith, inv.counted, ap holds_queue e, weight-le-sum_below holds_queue n s.stage i lt)

Later-blocking :
    {n : ℕ} {s t : Sleepers}
    → Inv n s
    → (i : ℕ) → i < n
    → s.stage i ≡ blocking
    → Later n s t
    → t.stage i ≡ blocking
Later-blocking inv i h e here = e
Later-blocking inv i h e (further {t = t} r j lt) =
    let before = Later-blocking inv i h e r in
    elim (ℕ_discrete i j) [
      | yes same ↦ rw (if_pos (ℕ_discrete i j) same) (
          ap (λ (x : SleepingMutex × Stage). x.1)
            (blocked j t.mutex (t.stage j) (ap t.stage (sym same) ∙ before)
              (blocking-flag (Later-Inv inv r) i h before)))
      | no other ↦ rw (if_neg (ℕ_discrete i j) other) before
    ]

-- From any reachable state, a thread that has found the mutex taken twice and asks to be blocked never
-- gets any further: whatever the threads do from then on, it stays at the spinlock of the queue, whose
-- flag stays set.
pub blocks_for_ever :
    {n : ℕ} {s t : Sleepers}
    → Later n all_trying s
    → (i : ℕ) → i < n
    → s.stage i ≡ blocking
    → Later n s t
    → (t.stage i ≡ blocking) × (t.mutex.queue_locked ≡ true)
blocks_for_ever {n} {s} {t} r i h e later =
    let inv = Later-Inv (all_trying-Inv n) r in
    let still = Later-blocking inv i h e later in
    let after = Later-Inv inv later in
    (still, let flag = blocking-flag after i h still in ground arith)
