-- ===== src/Sync/RwLock.antt =====
-- klib/src/sync.rs, lines 276 to 406: `RwLock`. The state is an `i32`, here its 32 bits as a number; one
-- step of a thread makes one atomic access. All accesses are taken to be sequentially consistent.
use mars.Prelude.{ℕ, ◌+◌, ◌-◌, ◌/◌, ◌%◌, ◌^◌, ◌<◌, Bool, not, ◌&&◌, ◌==◌, if◌then◌else◌}
use mars.Prelude.Family.{update}

-- `LockState::MIN` as bits, and `LockState::MAX`.
abbrev pub writer : ℕ
writer = 2 ^ 31

abbrev pub readers : ℕ
readers = 2 ^ 31 - 1

-- `state & WRITER == 0`.
abbrev pub no_writer : ℕ → Bool
no_writer state = state / 2 ^ 31 % 2 == 0

-- `state | WRITER`.
abbrev pub with_writer : ℕ → ℕ
with_writer state = if no_writer state then state + writer else state

-- Where a thread stands, with its local copy of the state.
pub data Pc : Type 0 where
  idle : Pc
  read_loop : ℕ → Pc  -- top of the loop of `read`
  reading : Pc  -- holds a read guard
  write_loop : ℕ → Pc  -- top of the loop of `write`
  draining : Pc  -- the inner `while` of `write`
  writing : Pc  -- holds a write guard

-- What the environment chooses: which lock an idle thread takes, and whether a weak
-- compare-exchange fails with no reason.
pub data Choice : Type 0 where
  take_read : Choice
  take_write : Choice
  carry_on : (spurious : Bool) → Choice

-- One access of one thread: the choice, the shared state and the thread's place before and after.
unfoldable pub turn : Choice → ℕ → Pc → ℕ × Pc
turn take_read state idle = (state, read_loop state)
turn take_write state idle = (state, write_loop state)
turn (carry_on spurious) state (read_loop seen) =
    if no_writer seen && not (seen == readers)
    then (if not spurious && state == seen then (seen + 1, reading) else (state, read_loop state))
    else (state, read_loop state)
turn (carry_on spurious) state (write_loop seen) =
    if no_writer seen
    then (if not spurious && state == seen
        then (with_writer seen, if seen == 0 then writing else draining)
        else (state, write_loop state))
    else (state, write_loop state)
turn (carry_on spurious) state draining =
    if state == writer then (state, writing) else (state, draining)
-- `Drop for RwLockReadGuard` and `Drop for RwLockWriteGuard`.
turn (carry_on spurious) state reading = ((state + 2 ^ 32 - 1) % 2 ^ 32, idle)
turn (carry_on spurious) state writing = (0, idle)
turn _ state pc = (state, pc)

pub record System : Type 0 where
  pub state : ℕ
  pub pc : ℕ → Pc

-- `RwLock::new`, with every thread idle.
abbrev pub new : System
new = record { state = 0; pc = λ i. idle }

pub data Step (n : ℕ) (s : System) : System → Type 0 where
  pick :
      (i : ℕ) (c : Choice)
      → i < n
      → Step n s (record {
        state = (turn c s.state (s.pc i)).0;
        pc = update s.pc i (turn c s.state (s.pc i)).1;
      })

pub data Reach (n : ℕ) : System → Type 0 where
  start : Reach n new
  later : {s t : System} → Reach n s → Step n s t → Reach n t
