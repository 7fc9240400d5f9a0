-- ===== src/Tests/Sync.antt =====
-- Inputs for Sync: a writer that has the lock, and one that waits for a reader.
use mars.Sync.RwSafety.{write_exclusion, reads, writer_waits}
use mars.Sync.RwLock.{
  turn, Choice, System, Reach, writing, draining, reading, new, later, take_write, carry_on, start,
  take_read, pick, writer,
}
use mars.Prelude.{ℕ, ◌<◌, ◌≡◌, refl, ◌≢◌, Bool, true, false, arith, ℕ_discrete}
use mars.Prelude.Family.{update, sum_below}

abbrev stepped : System → ℕ → Choice → System
stepped s i c = record {
  state = (turn c s.state (s.pc i)).0;
  pc = update s.pc i (turn c s.state (s.pc i)).1;
}

-- Thread 0 asks for the lock and gets it.
abbrev one_writing : System
one_writing = stepped (stepped new 0 take_write) 0 (carry_on false)

one_writing-Reach : Reach 2 one_writing
one_writing-Reach =
    later (later start (pick 0 take_write (omega arith))) (pick 0 (carry_on false) (omega arith))

-- Thread 1 reads, and thread 0 waits for it to end.
abbrev one_reading : System
one_reading = stepped (stepped new 1 take_read) 1 (carry_on false)

abbrev one_waiting : System
one_waiting =
    stepped (stepped (stepped one_reading 0 take_write) 0 (carry_on true)) 0 (carry_on false)

one_reading-Reach : Reach 2 one_reading
one_reading-Reach =
    later (later start (pick 1 take_read (omega arith))) (pick 1 (carry_on false) (omega arith))

one_waiting-Reach : Reach 2 one_waiting
one_waiting-Reach =
    later
      (later (later one_reading-Reach (pick 0 take_write (omega arith)))
        (pick 0 (carry_on true) (omega arith)))
      (pick 0 (carry_on false) (omega arith))

one_writing-writing : one_writing.pc 0 ≡ writing
unfolding turn ℕ_discrete
one_writing-writing = refl

one_waiting-draining : one_waiting.pc 0 ≡ draining
unfolding turn ℕ_discrete
one_waiting-draining = refl

write_exclusion_example :
    (one_writing.pc 1 ≢ reading) × (one_writing.pc 1 ≢ writing) × (one_writing.pc 1 ≢ draining)
write_exclusion_example =
    write_exclusion one_writing-Reach 0 1 (omega arith) (omega arith) (omega arith)
      one_writing-writing

writer_waits_example :
    ((j : ℕ) (c : Choice)
      → j < 2
      → one_waiting.pc j ≢ reading
      → (turn c one_waiting.state (one_waiting.pc j)).1 ≢ reading)
    × (sum_below reads 2 one_waiting.pc ≡ 0
        → (spurious : Bool)
        → turn (carry_on spurious) one_waiting.state (one_waiting.pc 0) ≡ (writer, writing))
writer_waits_example = writer_waits one_waiting-Reach 0 (omega arith) one_waiting-draining
