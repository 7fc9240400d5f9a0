-- ===== src/Sync/RwSafety.antt =====
-- klib/src/sync.rs: what the readers and writers of an `RwLock` can rely on.
use mars.Prelude.{
  ℕ, ◌+◌, ◌*◌, ◌^◌, ◌≤◌, ◌<◌, ◌≡◌, arith, ℕ_discrete, if_neg, ap, ◌≢◌, ◌%◌, Bool, true, ◌↔◌, if_pos,
  false, refl, dec_lt,
}
use mars.Prelude.Family.{
  sum_below, update, weight-le-sum_below, sum_below-update, sum_below-zero,
  two_weights-le-sum_below,
}
use mars.Sync.RwLock.{
  idle, turn, System, Pc, writing, Choice, reading, draining, carry_on, read_loop, write_loop,
  take_read, take_write, Step, new, Reach, pick, later, no_writer, start, writer,
}

abbrev pub reads : Pc → ℕ
reads reading = 1
reads _ = 0

-- The writer bit is set for a thread that has the lock or waits for the readers to go.
abbrev pub writes : Pc → ℕ
writes draining = 1
writes writing = 1
writes _ = 0

-- The state counts the readers in its low bits, and has the top bit for at most one writer, which
-- has no reader beside it once it has the lock.
pub record Inv (n : ℕ) (s : System) : Type 0 where
  pub counted : s.state ≡ sum_below reads n s.pc + sum_below writes n s.pc * 2 ^ 31
  pub few : sum_below reads n s.pc < 2 ^ 31
  pub one_writer : sum_below writes n s.pc ≤ 1
  pub alone : (i : ℕ) → i < n → s.pc i ≡ writing → sum_below reads n s.pc ≡ 0

-- One turn, with the sums over the threads before it (`r`, `w`) and after it (`r'`, `w'`).
record Sums (p p' : Pc) (r w r' w' : ℕ) : Type 0 where
  few : r < 2 ^ 31
  one_writer : w ≤ 1
  alone : p ≡ writing → r ≡ 0
  reads_in : reads p ≤ r
  writes_in : writes p ≤ w
  reads_sum : r' + reads p ≡ r + reads p'
  writes_sum : w' + writes p ≡ w + writes p'

abbrev Counted : Pc → (r w r' w' : ℕ) → ℕ → Pc → Type 0
Counted p r w r' w' state' p' =
    (state' ≡ r' + w' * 2 ^ 31)
    × (r' < 2 ^ 31)
    × (w' ≤ 1)
    × (p' ≡ writing → r' ≡ 0)
    × (r < r' → w ≡ 0)

turn-Counted :
    (c : Choice) (p : Pc) (state r w r' w' : ℕ)
    → state ≡ r + w * 2 ^ 31
    → Sums p (turn c state p).1 r w r' w'
    → Counted p r w r' w' (turn c state p).0 (turn c state p).1
unfolding turn
turn-Counted take_read idle state r w r' w' e s = ground arith
turn-Counted take_write idle state r w r' w' e s = ground arith
turn-Counted (carry_on spurious) (read_loop seen) state r w r' w' e s = ground arith
turn-Counted (carry_on spurious) (write_loop seen) state r w r' w' e s = ground arith
turn-Counted (carry_on spurious) draining state r w r' w' e s = ground arith
turn-Counted c p state r w r' w' e s = ground arith

module _ {n : ℕ} {s : System} (inv : Inv n s) (i : ℕ) (lt : i < n) (c : Choice) where
  abbrev after : System
  after = record {
    state = (turn c s.state (s.pc i)).0;
    pc = update s.pc i (turn c s.state (s.pc i)).1;
  }

  turn-Sums :
      Sums
        (s.pc i)
        (turn c s.state (s.pc i)).1
        (sum_below reads n s.pc)
        (sum_below writes n s.pc)
        (sum_below reads n after.pc)
        (sum_below writes n after.pc)
  turn-Sums = record {
    few = inv.few;
    one_writer = inv.one_writer;
    alone = inv.alone i lt;
    reads_in = weight-le-sum_below reads n s.pc i lt;
    writes_in = weight-le-sum_below writes n s.pc i lt;
    reads_sum = sum_below-update reads n s.pc i _ lt;
    writes_sum = sum_below-update writes n s.pc i _ lt;
  }

  after-Counted :
      Counted
        (s.pc i)
        (sum_below reads n s.pc)
        (sum_below writes n s.pc)
        (sum_below reads n after.pc)
        (sum_below writes n after.pc)
        after.state
        (turn c s.state (s.pc i)).1
  after-Counted = turn-Counted c (s.pc i) s.state _ _ _ _ inv.counted turn-Sums

  -- A thread that has the lock for writing keeps it alone: nobody else begins to read.
  after-alone : (j : ℕ) → j < n → after.pc j ≡ writing → sum_below reads n after.pc ≡ 0
  after-alone j h e = elim (ℕ_discrete j i) [
    | yes same ↦ after-Counted.3 (rw (if_pos (ℕ_discrete j i) same) at e)
    | no other ↦
        let e' : s.pc j ≡ writing = rw (if_neg (ℕ_discrete j i) other) at e in
        let holds : 1 ≤ sum_below writes n s.pc =
          rw (ap writes e') at (weight-le-sum_below writes n s.pc j h) in
        elim (dec_lt (sum_below reads n s.pc) (sum_below reads n after.pc)) [
          | yes grows ↦ absurd (omega (arith, after-Counted.4 grows, holds))
          | no rest ↦ omega (arith, inv.alone j h e')
        ]
  ]

  turn-Inv : Inv n after
  turn-Inv = record {
    counted = after-Counted.0;
    few = after-Counted.1;
    one_writer = after-Counted.2;
    alone = after-alone;
  }

-- Every turn keeps the invariant.
pub Step-Inv : {n : ℕ} {s t : System} → Step n s t → Inv n s → Inv n t
Step-Inv (pick i c lt) inv = turn-Inv inv i lt c

new-Inv : (n : ℕ) → Inv n new
new-Inv n = record {
  counted = omega (
    arith,
    sum_below-zero reads n new.pc (λ i. refl),
    sum_below-zero writes n new.pc (λ i. refl),
  );
  few = omega (arith, sum_below-zero reads n new.pc (λ i. refl));
  one_writer = omega (arith, sum_below-zero writes n new.pc (λ i. refl));
  alone = λ i lt e. sum_below-zero reads n new.pc (λ i. refl);
}

pub Reach-Inv : {n : ℕ} {s : System} → Reach n s → Inv n s
Reach-Inv {n} start = new-Inv n
Reach-Inv (later r st) = Step-Inv st (Reach-Inv r)

-- However any number of threads interleave, while one of them holds the write guard no other one
-- holds a guard of either kind, nor waits with the writer bit set.
pub write_exclusion :
    {n : ℕ} {s : System}
    → Reach n s
    → (i j : ℕ) → i < n
    → j < n
    → i ≢ j
    → s.pc i ≡ writing
    → (s.pc j ≢ reading) × (s.pc j ≢ writing) × (s.pc j ≢ draining)
write_exclusion {n} {s} r i j hi hj ne e =
    let inv = Reach-Inv r in
    let no_reads : reads (s.pc j) ≡ 0 =
      omega (arith, inv.alone i hi e, weight-le-sum_below reads n s.pc j hj) in
    let no_writes : writes (s.pc j) ≡ 0 =
      omega
        (arith, ap writes e, inv.one_writer, two_weights-le-sum_below writes n s.pc i j hi hj ne) in
    ground arith

-- In every reachable state the low bits of the lock's state count the read guards, which never wrap,
-- and the writer bit is set exactly while one thread holds or awaits the write guard.
pub state_counts :
    {n : ℕ} {s : System}
    → Reach n s
    → (s.state % 2 ^ 31 ≡ sum_below reads n s.pc)
      × ((no_writer s.state ≡ true) ↔ (sum_below writes n s.pc ≡ 0))
      × (sum_below writes n s.pc ≤ 1)
state_counts r = let inv = Reach-Inv r in ground (arith, inv.counted, inv.few, inv.one_writer)

-- With the writer bit set no turn lets a reader in.
turn-no_reader :
    (c : Choice) (state : ℕ) (p : Pc)
    → no_writer state ≡ false
    → p ≢ reading
    → (turn c state p).1 ≢ reading
unfolding turn
turn-no_reader take_read state idle h ne = ground arith
turn-no_reader (carry_on spurious) state (read_loop seen) h ne = ground arith
turn-no_reader c state p h ne = ground arith

drained :
    (spurious : Bool) (state : ℕ) (p : Pc)
    → p ≡ draining
    → state ≡ writer
    → turn (carry_on spurious) state p ≡ (writer, writing)
unfolding turn
drained spurious state draining e h = ground arith
drained spurious state p e h = cc

-- Once a writer waits, no turn of any thread lets a reader in; and when the readers are gone, the
-- writer's own next access takes the lock.
pub writer_waits :
    {n : ℕ} {s : System}
    → Reach n s
    → (i : ℕ) → i < n
    → s.pc i ≡ draining
    → ((j : ℕ) (c : Choice) → j < n → s.pc j ≢ reading → (turn c s.state (s.pc j)).1 ≢ reading)
      × (sum_below reads n s.pc ≡ 0
          → (spurious : Bool) → turn (carry_on spurious) s.state (s.pc i) ≡ (writer, writing))
writer_waits {n} {s} r i hi e =
    let inv = Reach-Inv r in
    let holds : 1 ≤ sum_below writes n s.pc =
      rw (ap writes e) at (weight-le-sum_below writes n s.pc i hi) in
    let bit : no_writer s.state ≡ false = ground (arith, inv.counted, inv.few, inv.one_writer) in
    (
      λ j c hj. turn-no_reader c s.state (s.pc j) bit,
      λ none_reads spurious.
          drained spurious s.state (s.pc i) e (omega (arith, inv.counted, inv.one_writer)),
    )
