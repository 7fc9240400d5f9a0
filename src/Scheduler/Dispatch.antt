-- ===== src/Scheduler/Dispatch.antt =====
-- klib/src/scheduler.rs, `schedule`: when it returns.

use mars.Prelude.{
  ℕ, ◌≡◌, refl, ◌∙◌, inl, inr, false, Option, none, some, List, [], ◌∷◌, arith, Bool-cases,
  Option-cases, get_elem?,
}
use mars.Scheduler.{
  Kernel, switch_to, save_previous, schedule, LocalScheduler, same_thread, panics, returns, choose,
  Run, ◌>>=◌,
}

>>=-eq-returns :
    {A B : Type 0} (m : Run A) (f : A → Run B) {b : B}
    → (m >>= f) ≡ returns b
    → (a : A) × (m ≡ returns a) × (f a ≡ returns b)
>>=-eq-returns (returns a) f e = (a, refl, e)
>>=-eq-returns panics f e = cc

module _ {R : Type 0} where
  switch_to-panics :
      (k : Kernel R) (cpu : ℕ) (l : LocalScheduler) (prev : Option ℕ) (next : ℕ) (ctx : R)
      → same_thread prev next ≡ false
      → switch_to k cpu l prev next ctx ≡ panics
  unfolding switch_to
  switch_to-panics k cpu l prev next ctx h = ground arith

  -- The CPU goes on with the registers and the address space that it had.
  abbrev pub GoesOn : Kernel R → R → R × Kernel R → Type 0
  GoesOn k ctx out = (out.0 ≡ ctx) × (out.1.ttbr0 ≡ k.ttbr0)

  switch_to-GoesOn :
      (k : Kernel R) (cpu : ℕ) (l : LocalScheduler) (prev : Option ℕ) (next : ℕ) (ctx : R)
      {out : R × Kernel R}
      → switch_to k cpu l prev next ctx ≡ returns out
      → GoesOn k ctx out
  unfolding switch_to
  switch_to-GoesOn k cpu l prev next ctx e = elim (Bool-cases (same_thread prev next)) [
    | inl same ↦ ground arith
    | inr other ↦ cc (e, switch_to-panics k cpu l prev next ctx other)
  ]

  choose-GoesOn :
      (k : Kernel R) (cpu : ℕ) (queue : List ℕ) (current prev : Option ℕ) (ctx : R)
      {out : R × Kernel R}
      → choose k cpu (record { thread_queue = queue; current_thread = current }) prev ctx
        ≡ returns out
      → GoesOn k ctx out
  unfolding choose
  choose-GoesOn k cpu [] current none ctx e = ground arith
  choose-GoesOn k cpu [] current (some prev) ctx e =
      switch_to-GoesOn k cpu (record { thread_queue = []; current_thread = none }) (some prev) prev
        ctx e
  choose-GoesOn k cpu (t ∷ ts) current prev ctx e =
      switch_to-GoesOn k cpu (record { thread_queue = ts; current_thread = none }) prev t ctx e

  save_previous-ttbr0 :
      (k : Kernel R) (prev : Option ℕ) (l : LocalScheduler) (ctx : R)
      {out : LocalScheduler × Kernel R}
      → save_previous k prev l ctx ≡ returns out
      → out.1.ttbr0 ≡ k.ttbr0
  unfolding save_previous
  save_previous-ttbr0 k none l ctx e = ground arith
  save_previous-ttbr0 k (some prev) l ctx e = ground arith

  scheduled :
      (k : Kernel R) (cpu : ℕ) (l : LocalScheduler) (ctx : R) {out : R × Kernel R}
      → (save_previous k l.current_thread l ctx >>= λ saved.
          choose saved.1 cpu saved.0 l.current_thread ctx)
        ≡ returns out
      → GoesOn k ctx out
  scheduled k cpu l ctx e =
      let (saved, first, second) = >>=-eq-returns (save_previous k l.current_thread l ctx) _ e in
      let on =
        choose-GoesOn saved.1 cpu saved.0.thread_queue saved.0.current_thread l.current_thread ctx
          second in
      (on.0, on.1 ∙ save_previous-ttbr0 k l.current_thread l ctx first)

  -- Whenever `schedule` returns, in whatever state it was called, it has not switched: the CPU goes on
  -- with the registers and the address space that it had.
  pub schedule-GoesOn :
      (k : Kernel R) (cpu : ℕ) (ctx : R) {out : R × Kernel R}
      → schedule k cpu ctx ≡ returns out
      → GoesOn k ctx out
  unfolding schedule
  schedule-GoesOn k cpu ctx e = elim (Option-cases (get_elem? k.scheduler.queues cpu)) [
    | inl missing ↦ cc (rw (missing, schedule) at e)
    | inr (l, here) ↦ scheduled k cpu l ctx (rw (here, schedule) at e)
  ]
