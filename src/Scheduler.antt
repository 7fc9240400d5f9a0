-- ===== src/Scheduler.antt =====
-- klib/src/scheduler.rs and the parts of klib/src/thread.rs that it calls. A thread (`Arc<Thread>`) is a
-- number, and `Arc::ptr_eq` is equality of numbers; what threads hold is in one table. The locks are
-- left out: each function runs as one step. `R` is the register file.
pub mod Queues
pub mod Dispatch
pub mod ThreadIds
use mars.Prelude.{
  ℕ, ◌+◌, ◌-◌, ◌%◌, ◌^◌, Bool, true, false, Option, none, some, List, [], ◌∷◌, ◌++◌, leb, ◌==◌,
  if◌then◌else◌, length, get_elem?, set, replicate,
}
use mars.Prelude.Family.{update}

pub data ThreadState : Type 0 where
  running : ThreadState
  ready : ThreadState
  blocked : ThreadState
  dead : ThreadState

abbrev pub is_running : ThreadState → Bool
is_running running = true
is_running _ = false

-- A call that returns, or an assertion or index that fails.
pub data Run {ℓ} (A : Type ℓ) : Type ℓ where
  returns : A → Run A
  panics : Run A

infixl 5 ◌>>=◌
abbrev pub ◌>>=◌ {ℓ κ} : {A : Type ℓ} {B : Type κ} → Run A → (A → Run B) → Run B
run >>= rest = elim run [ panics ↦ panics | returns x ↦ rest x ]

-- `ThreadInner`: the fields that the scheduler reads. `root` is the root table of the address space of
-- the thread's process, if that process still exists.
pub record ThreadInner (R : Type 0) : Type 0 where
  pub state : ThreadState
  pub ctx : R
  pub root : Option ℕ

pub record LocalScheduler : Type 0 where
  pub thread_queue : List ℕ
  pub current_thread : Option ℕ

pub record Scheduler : Type 0 where
  pub queues : List LocalScheduler
  pub spawn_counter : ℕ  -- `AtomicU8`

-- The scheduler, the threads, and the root table that each CPU has in TTBR0_EL1.
pub record Kernel (R : Type 0) : Type 0 where
  pub scheduler : Scheduler
  pub threads : ℕ → ThreadInner R
  pub ttbr0 : ℕ → ℕ

-- `LocalScheduler::new`.
abbrev pub no_threads : LocalScheduler
no_threads = record { thread_queue = []; current_thread = none }

-- `Scheduler::new`.
abbrev pub no_cpus : Scheduler
no_cpus = record { queues = []; spawn_counter = 0 }

-- `Arc::ptr_eq` on the previous thread, if there is one.
abbrev pub same_thread : Option ℕ → ℕ → Bool
same_thread none next = false
same_thread (some prev) next = prev == next

-- `thread_queue.pop_front().or_else(|| prev_thread.clone())`, with the queue that is left.
abbrev pub next_thread : List ℕ → Option ℕ → Option ℕ × List ℕ
next_thread [] prev = (prev, [])
next_thread (t ∷ ts) prev = (some t, ts)

module _ {R : Type 0} where
  -- `Thread::set_state` and `Thread::get_state`.
  abbrev pub set_state : Kernel R → ℕ → ThreadState → Kernel R
  set_state k t st = record k { threads = update k.threads t (record (k.threads t) { state = st }) }

  abbrev pub get_state : Kernel R → ℕ → ThreadState
  get_state k t = (k.threads t).state

  -- `Thread::with_ctx_mut`, for a function that returns a value beside the new registers.
  unfoldable pub with_ctx_mut : {B : Type 0} → Kernel R → ℕ → (R → B × R) → Run (B × Kernel R)
  with_ctx_mut k t f =
      if is_running (get_state k t)
      then panics
      else (let (b, ctx) = f (k.threads t).ctx in
          returns
            (b, record k { threads = update k.threads t (record (k.threads t) { ctx = ctx }) }))

  abbrev pub set_local : Kernel R → ℕ → LocalScheduler → Kernel R
  set_local k cpu l = record k {
    scheduler = record (k.scheduler) { queues = set k.scheduler.queues cpu l };
  }

  -- `Scheduler::spawn`; `Scheduler::unblock` is the same call.
  unfoldable pub spawn : Kernel R → ℕ → Run (Kernel R)
  spawn k t =
      let queues = k.scheduler.queues in
      let counter = k.scheduler.spawn_counter in
      let k' = record (set_state k t ready) {
        scheduler = record (k.scheduler) { spawn_counter = (counter + 1) % 2 ^ 8 };
      } in
      elim (get_elem? queues (counter % length queues)) [
        | none ↦ panics
        | some l ↦ returns (
            set_local k' (counter % length queues)
              (record l { thread_queue = l.thread_queue ++ t ∷ [] }))
      ]

  -- `Scheduler::register_cpu`.
  unfoldable pub register_cpu : Kernel R → ℕ → Kernel R
  register_cpu k cpu =
      let queues = k.scheduler.queues in
      if leb (length queues) cpu
      then record k {
        scheduler = record (k.scheduler) {
          queues = queues ++ replicate (cpu + 1 - length queues) no_threads;
        };
      }
      else k

  -- `Scheduler::current_thread`, on CPU `cpu`.
  unfoldable pub current_thread : Kernel R → ℕ → Run (Option ℕ)
  current_thread k cpu = elim (get_elem? k.scheduler.queues cpu) [
    | none ↦ panics
    | some l ↦ returns l.current_thread
  ]

  -- A thread that was running goes to the end of the queue.
  unfoldable pub requeue : Kernel R → ℕ → LocalScheduler → Run (LocalScheduler × Kernel R)
  requeue k prev l =
      if is_running (get_state k prev)
      then returns (record l { thread_queue = l.thread_queue ++ prev ∷ [] }, set_state k prev ready)
      else returns (l, k)

  -- The part of `schedule` for the thread that was running: its registers are saved, and it is queued
  -- again if it could go on.
  unfoldable pub save_previous :
      Kernel R → Option ℕ → LocalScheduler → R → Run (LocalScheduler × Kernel R)
  unfolding with_ctx_mut requeue
  save_previous k none l ctx = returns (l, k)
  save_previous k (some prev) l ctx =
      with_ctx_mut {B = Unit {0}} k prev (λ old. (tt, ctx)) >>= λ saved. requeue saved.1 prev l

  -- The part of `schedule` that goes over to `next`. The first component of the result is the register
  -- file that the CPU returns to.
  unfoldable pub switch_to : Kernel R → ℕ → LocalScheduler → Option ℕ → ℕ → R → Run (R × Kernel R)
  unfolding with_ctx_mut
  switch_to k cpu l prev next ctx =
      let kept = set_local k cpu (record l { current_thread = some next }) in
      let started = set_state k next running in
      let mapped : Kernel R = elim ((k.threads next).root) [
        | none ↦ started
        | some root ↦ record started { ttbr0 = update k.ttbr0 cpu root }
      ] in
      let switched = set_local mapped cpu (record l { current_thread = some next }) in
      if same_thread prev next
      then returns (ctx, kept)
      else with_ctx_mut switched next (λ saved. (saved, saved))

  -- The rest of `schedule`, with the previous thread saved.
  unfoldable pub choose : Kernel R → ℕ → LocalScheduler → Option ℕ → R → Run (R × Kernel R)
  unfolding switch_to
  choose k cpu l prev ctx =
      let (next, rest) = next_thread l.thread_queue prev in
      let l' : LocalScheduler = record { thread_queue = rest; current_thread = none } in
      elim next [
        | none ↦ returns (ctx, set_local k cpu l')
        | some t ↦ switch_to k cpu l' prev t ctx
      ]

  -- `Scheduler::schedule`, on CPU `cpu` with the registers `ctx` of the interrupted code.
  unfoldable pub schedule : Kernel R → ℕ → R → Run (R × Kernel R)
  unfolding save_previous choose
  schedule k cpu ctx = elim (get_elem? k.scheduler.queues cpu) [
    | none ↦ panics
    | some l ↦ save_previous k l.current_thread l ctx >>= λ saved.
        choose saved.1 cpu saved.0 l.current_thread ctx
  ]
