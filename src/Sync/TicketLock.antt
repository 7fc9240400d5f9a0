-- ===== src/Sync/TicketLock.antt =====
-- klib/src/sync.rs, lines 109 to 137: `TicketLock`, with the step relation of threads that take it and
-- release it; each step is one atomic access. `steal` of `FairSpinlock` is left out.
use mars.Prelude.{ℕ, ◌+◌, ◌%◌, ◌^◌, ◌<◌, ◌==◌, if◌then◌else◌}
use mars.Prelude.Family.{update}

pub record TicketLock : Type 0 where
  pub ticket : ℕ
  pub users : ℕ

-- Where a thread stands: its ticket is drawn by the `fetch_add` of `lock`.
pub data Place : Type 0 where
  outside : Place
  spinning : ℕ → Place
  holding : ℕ → Place

-- `TicketLock::new`.
abbrev pub unlocked : TicketLock
unlocked = record { ticket = 0; users = 0 }

-- The next access of a thread: of `lock` up to the return, then of `unlock`.
unfoldable pub ticket_access : TicketLock → Place → TicketLock × Place
ticket_access l outside = (record l { ticket = (l.ticket + 1) % 2 ^ 64 }, spinning l.ticket)
ticket_access l (spinning t) = (l, if l.users == t then holding t else spinning t)
ticket_access l (holding t) = (record l { users = (l.users + 1) % 2 ^ 64 }, outside)

pub record Threads : Type 0 where
  pub lock : TicketLock
  pub place : ℕ → Place

abbrev pub all_outside : Threads
all_outside = record { lock = unlocked; place = λ i. outside }

abbrev pub accessed : Threads → ℕ → Threads
accessed s i = record {
  lock = (ticket_access s.lock (s.place i)).0;
  place = update s.place i (ticket_access s.lock (s.place i)).1;
}

-- What `n` threads can come to.
pub data Runs (n : ℕ) : Threads → Type 0 where
  begin : Runs n all_outside
  goes : {s : Threads} → Runs n s → (i : ℕ) → i < n → Runs n (accessed s i)
