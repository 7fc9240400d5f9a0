-- ===== src/Tests/Scheduler.antt =====
-- Inputs for Scheduler: two CPUs, thread 7 on the first and thread 9 queued on the second. A register
-- file is a number.

use mars.Scheduler.Dispatch.{GoesOn, schedule-GoesOn}
use mars.Scheduler.{Kernel, spawn, register_cpu, schedule, running, returns, ready}
use mars.Prelude.{ℕ, ◌+◌, ◌≡◌, refl, none, some, [], ◌∷◌, ◌==◌, if◌then◌else◌, get_elem?}

abbrev two_cpus : Kernel ℕ
two_cpus = record {
  scheduler = record {
    queues =
        record { thread_queue = []; current_thread = some 7 }
        ∷ record { thread_queue = 9 ∷ []; current_thread = none }
        ∷ [];
    spawn_counter = 255;
  };
  threads = λ t. record { state = if t == 7 then running else ready; ctx = 100 + t; root = none };
  ttbr0 = λ cpu. 0;
}

-- The 256th thread goes to the second CPU, behind thread 9, and the counter wraps.
spawn_twelve :
    (k : Kernel ℕ) × (spawn two_cpus 12 ≡ returns k)
    × (get_elem? k.scheduler.queues 1
        ≡ some (record { thread_queue = 9 ∷ 12 ∷ []; current_thread = none }))
    × (k.scheduler.spawn_counter ≡ 0)
unfolding spawn
spawn_twelve = (_, refl, refl, refl)

-- An idle CPU with nothing queued stays idle.
abbrev idle_cpu : Kernel ℕ
idle_cpu = register_cpu two_cpus 2

idle_cpu-returns : (out : ℕ × Kernel ℕ) × (schedule idle_cpu 2 5 ≡ returns out)
unfolding schedule register_cpu
idle_cpu-returns = (_, refl)

schedule-GoesOn_example : GoesOn idle_cpu 5 idle_cpu-returns.0
schedule-GoesOn_example = schedule-GoesOn idle_cpu 2 5 idle_cpu-returns.1
