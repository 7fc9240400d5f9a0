-- ===== src/Scheduler/Queues.antt =====
-- klib/src/scheduler.rs: `spawn` and `register_cpu`.
use mars.Prelude.Family.{update_self}
use Prim.Native.Nat.{◌≤◌}
use mars.Prelude.{
  ℕ, ◌+◌, ◌-◌, ◌%◌, ◌^◌, ◌≤◌, ◌<◌, ◌≡◌, refl, sym, ap, ◌≢◌, some, [], ◌∷◌, ◌++◌, arith, dec_lt,
  length, get_elem?, replicate, get_elem?-of_lt, length-append, length-replicate,
  get_elem?-append_left, get_elem?-set_self, get_elem?-append_replicate, get_elem?-set_ne,
}
use mars.Scheduler.{
  Kernel, spawn, register_cpu, LocalScheduler, no_threads, returns, get_state, ready, set_local,
  set_state, ThreadInner,
}

module _ {R : Type 0} where
  -- With at least one CPU registered, `spawn` returns; it puts the thread, now ready, at the end of the
  -- queue of the CPU whose turn it is, leaves the queues of the others alone, and passes the turn
  -- on, modulo 256.
  pub spawn_lem :
      (k : Kernel R) (t : ℕ)
      → 0 < length k.scheduler.queues
      → let cpu = k.scheduler.spawn_counter % length k.scheduler.queues in
        (l : LocalScheduler) × (k' : Kernel R) × (spawn k t ≡ returns k')
        × (get_elem? k.scheduler.queues cpu ≡ some l)
        × (get_elem? k'.scheduler.queues cpu
            ≡ some (record l { thread_queue = l.thread_queue ++ t ∷ [] }))
        × ((i : ℕ) → i ≢ cpu → get_elem? k'.scheduler.queues i ≡ get_elem? k.scheduler.queues i)
        × (get_state k' t ≡ ready)
        × (k'.scheduler.spawn_counter ≡ (k.scheduler.spawn_counter + 1) % 256)
  unfolding spawn
  spawn_lem k t h =
      let queues = k.scheduler.queues in
      let counter = k.scheduler.spawn_counter in
      let cpu_in : counter % length queues < length queues = omega arith in
      let (l, found) = get_elem?-of_lt queues (counter % length queues) cpu_in in
      (
        l,
        set_local
            (record (set_state k t ready) {
              scheduler = record (k.scheduler) { spawn_counter = (counter + 1) % 2 ^ 8 };
            })
            (counter % length queues) (record l { thread_queue = l.thread_queue ++ t ∷ [] }),
        rw (found, spawn) refl,
        found,
        get_elem?-set_self queues (counter % length queues) _ cpu_in,
        λ i ne. get_elem?-set_ne queues _ (λ e. ne (sym e)),
        ap (λ (inner : ThreadInner R). inner.state)
            (update_self k.threads t (record (k.threads t) { state = ready })),
        refl,
      )

  -- After `register_cpu` the CPU has a queue, every queue that was there is as it was, and a queue that
  -- is new is empty.
  pub register_cpu_lem :
      (k : Kernel R) (cpu : ℕ)
      → (cpu < length (register_cpu k cpu).scheduler.queues)
        × ((i : ℕ)
            → i < length k.scheduler.queues
            → get_elem? (register_cpu k cpu).scheduler.queues i ≡ get_elem? k.scheduler.queues i)
        × ((i : ℕ)
            → length k.scheduler.queues ≤ i
            → i ≤ cpu
            → get_elem? (register_cpu k cpu).scheduler.queues i ≡ some no_threads)
  unfolding register_cpu
  register_cpu_lem k cpu = elim (dec_lt cpu (length k.scheduler.queues)) [
    | yes there ↦ (ground arith, (λ i lt. ground arith), λ i le le'. absurd (omega arith))
    | no new ↦
        let queues = k.scheduler.queues in
        (
          ground (
            arith,
            length-append queues (replicate (cpu + 1 - length queues) no_threads),
            length-replicate (cpu + 1 - length queues) no_threads,
          ),
          (λ i lt. ground (
            arith,
            get_elem?-append_left queues (replicate (cpu + 1 - length queues) no_threads) i lt,
          )),
          λ i le le'. ground (
            arith,
            get_elem?-append_replicate queues (cpu + 1 - length queues) no_threads i le
                (omega arith),
          ),
        )
  ]
