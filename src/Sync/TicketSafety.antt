-- ===== src/Sync/TicketSafety.antt =====
-- klib/src/sync.rs: one holder of a `TicketLock` at a time.
use mars.Sync.TicketLock.{
  Place, TicketLock, ticket_access, spinning, outside, holding, Threads, accessed, Runs,
  all_outside, goes, begin,
}
use mars.Prelude.{
  ℕ, ◌+◌, ◌-◌, ◌%◌, ◌^◌, ◌≤◌, ◌<◌, ◌≡◌, refl, sym, ◌∙◌, ◌≢◌, ◌⊎◌, inl, inr, if_pos, if_neg, arith,
  ℕ_discrete,
}
use mars.Prelude.Family.{
  sum_below-le, weight-le-sum_below, sum_below, sum_below-update, sum_below-zero,
}

-- A thread that has drawn a ticket and not yet released the lock.
abbrev pub waits : Place → ℕ
waits outside = 0
waits _ = 1

-- How many releases a ticket has to wait for.
abbrev pub rank : ℕ → ℕ → ℕ
rank users t = (t + 2 ^ 64 - users) % 2 ^ 64

-- A ticket is among the `out` that are out, and one that holds the lock is the first of them.
abbrev Fits : TicketLock → ℕ → Place → Type 0
Fits l out outside = Unit
Fits l out (spinning t) = (t < 2 ^ 64) × (rank l.users t < out)
Fits l out (holding t) = t ≡ l.users

abbrev Differ : Place → Place → Type 0
Differ (spinning t) (spinning u) = t ≢ u
Differ (spinning t) (holding u) = t ≢ u
Differ (holding t) (spinning u) = t ≢ u
Differ (holding t) (holding u) = t ≢ u
Differ _ _ = Unit

Differ-outside : (p : Place) → Differ p outside
Differ-outside outside = tt
Differ-outside (spinning t) = tt
Differ-outside (holding t) = tt

Differ-sym : (p q : Place) → Differ p q → Differ q p
Differ-sym outside q d = Differ-outside q
Differ-sym (spinning t) outside d = tt
Differ-sym (spinning t) (spinning u) d = λ e. d (sym e)
Differ-sym (spinning t) (holding u) d = λ e. d (sym e)
Differ-sym (holding t) outside d = tt
Differ-sym (holding t) (spinning u) d = λ e. d (sym e)
Differ-sym (holding t) (holding u) d = λ e. d (sym e)

-- The counters, with `out` tickets out.
abbrev Counts : TicketLock → ℕ → Type 0
Counts l out = (l.users < 2 ^ 64) × (l.ticket ≡ (l.users + out) % 2 ^ 64)

module _ (l : TicketLock) (out out' : ℕ) (counts : Counts l out) where
  ticket_access-Counts :
      (p : Place)
      → out' + waits p ≡ out + waits (ticket_access l p).1
      → Counts (ticket_access l p).0 out'
  unfolding ticket_access
  ticket_access-Counts outside e = ground arith
  ticket_access-Counts (spinning t) e = ground arith
  ticket_access-Counts (holding t) e = ground arith

  ticket_access-Fits :
      (p : Place)
      → Fits l out p
      → out' + waits p ≡ out + waits (ticket_access l p).1
      → out' ≤ 2 ^ 64
      → Fits (ticket_access l p).0 out' (ticket_access l p).1
  unfolding ticket_access
  ticket_access-Fits outside h e le = ground arith
  ticket_access-Fits (spinning t) h e le = ground arith
  ticket_access-Fits (holding t) h e le = tt

  ticket_access-Fits_others :
      (p q : Place)
      → Fits l out p
      → Fits l out q
      → Differ p q
      → out' + waits p ≡ out + waits (ticket_access l p).1
      → Fits (ticket_access l p).0 out' q
  unfolding ticket_access
  ticket_access-Fits_others p outside h k d e = tt
  ticket_access-Fits_others outside (spinning u) h k d e = ground arith
  ticket_access-Fits_others (spinning t) (spinning u) h k d e = ground arith
  ticket_access-Fits_others (holding t) (spinning u) h k d e = ground arith
  ticket_access-Fits_others outside (holding u) h k d e = k
  ticket_access-Fits_others (spinning t) (holding u) h k d e = k
  ticket_access-Fits_others (holding t) (holding u) h k d e = absurd (d (h ∙ sym k))

  ticket_access-Differ :
      (p q : Place)
      → Fits l out q
      → Differ p q
      → waits q ≤ out
      → out < 2 ^ 64 ⊎ (waits p ≡ 1)
      → Differ (ticket_access l p).1 q
  unfolding ticket_access
  ticket_access-Differ p outside k d le few = Differ-outside (ticket_access l p).1
  ticket_access-Differ outside (spinning u) k d le few = ground arith
  ticket_access-Differ outside (holding u) k d le few = ground arith
  ticket_access-Differ (spinning t) (spinning u) k d le few = ground arith
  ticket_access-Differ (spinning t) (holding u) k d le few = ground arith
  ticket_access-Differ (holding t) q k d le few = tt

waits-le : (p : Place) → waits p ≤ 1
waits-le outside = omega arith
waits-le (spinning t) = omega arith
waits-le (holding t) = omega arith

room :
    (l : TicketLock) (out out' : ℕ) (p : Place)
    → out' + waits p ≡ out + waits (ticket_access l p).1
    → out' ≤ 2 ^ 64
    → out < 2 ^ 64 ⊎ (waits p ≡ 1)
unfolding ticket_access
room l out out' outside e le = inl (omega arith)
room l out out' (spinning t) e le = inr refl
room l out out' (holding t) e le = inr refl

record Inv (n : ℕ) (s : Threads) : Type 0 where
  counts : Counts s.lock (sum_below waits n s.place)
  fits : (i : ℕ) → i < n → Fits s.lock (sum_below waits n s.place) (s.place i)
  differ : (i j : ℕ) → i < n → j < n → i ≢ j → Differ (s.place i) (s.place j)

module _ {n : ℕ} {s : Threads} (inv : Inv n s) (few : n ≤ 2 ^ 64) (i : ℕ) (lt : i < n) where
  abbrev out : ℕ
  out = sum_below waits n s.place

  abbrev out' : ℕ
  out' = sum_below waits n (accessed s i).place

  abbrev moved : Place
  moved = (ticket_access s.lock (s.place i)).1

  moves : out' + waits (s.place i) ≡ out + waits moved
  moves = sum_below-update waits n s.place i moved lt

  bound : out' ≤ 2 ^ 64
  bound = omega (arith, sum_below-le waits waits-le n (accessed s i).place)

  -- The thread that has moved, against another.
  moved-Differ : (j : ℕ) → j < n → i ≢ j → Differ moved (s.place j)
  moved-Differ j h ne =
      ticket_access-Differ s.lock out out' inv.counts (s.place i) (s.place j) (inv.fits j h)
        (inv.differ i j lt h ne) (weight-le-sum_below waits n s.place j h)
        (room s.lock out out' (s.place i) moves bound)

  accessed-Fits : (j : ℕ) → j < n → Fits (accessed s i).lock out' ((accessed s i).place j)
  accessed-Fits j h = elim (ℕ_discrete j i) [
    | yes same ↦
        rw (if_pos (ℕ_discrete j i) same)
          (ticket_access-Fits s.lock out out' inv.counts (s.place i) (inv.fits i lt) moves bound)
    | no other ↦ rw (if_neg (ℕ_discrete j i) other) (
        ticket_access-Fits_others s.lock out out' inv.counts (s.place i) (s.place j) (inv.fits i lt)
          (inv.fits j h) (inv.differ i j lt h λ e. other (sym e)) moves)
  ]

  accessed-Differ :
      (j k : ℕ) → j < n → k < n → j ≢ k → Differ ((accessed s i).place j) ((accessed s i).place k)
  accessed-Differ j k h g ne = elim (ℕ_discrete j i) [
    | yes same ↦
        let other : ¬ k ≡ i = λ e. ne (same ∙ sym e) in
        rw (if_pos (ℕ_discrete j i) same, if_neg (ℕ_discrete k i) other)
          (moved-Differ k g λ e. other (sym e))
    | no other ↦ elim (ℕ_discrete k i) [
      | yes same ↦
          rw (if_neg (ℕ_discrete j i) other, if_pos (ℕ_discrete k i) same)
            (Differ-sym moved (s.place j) (moved-Differ j h λ e. other (sym e)))
      | no others ↦
          rw (if_neg (ℕ_discrete j i) other, if_neg (ℕ_discrete k i) others) (inv.differ j k h g ne)
    ]
  ]

  accessed-Inv : Inv n (accessed s i)
  accessed-Inv = record {
    counts = ticket_access-Counts s.lock out out' inv.counts (s.place i) moves;
    fits = accessed-Fits;
    differ = accessed-Differ;
  }

Runs-Inv : {n : ℕ} {s : Threads} → n ≤ 2 ^ 64 → Runs n s → Inv n s
Runs-Inv {n} few begin =
    let none_out = sum_below-zero waits n all_outside.place (λ i. refl) in
    record { counts = (omega arith, omega arith); fits = λ i h. tt; differ = λ i j h g ne. tt }
Runs-Inv few (goes r i lt) = accessed-Inv (Runs-Inv few r) few i lt

-- Two places that hold the lock and have different tickets do not both have the first ticket.
one_first :
    (l : TicketLock) (out : ℕ) (p q : Place) (t u : ℕ)
    → p ≡ holding t
    → q ≡ holding u
    → Fits l out p
    → Fits l out q
    → Differ p q
    → ⊥
one_first l out (holding t') (holding u') t u e f h k d = d (h ∙ sym k)
one_first l out p q t u e f h k d = cc

-- However at most 2 ^ 64 threads interleave, no two of them hold the ticket lock at once.
pub ticket_exclusion :
    {n : ℕ} {s : Threads}
    → n ≤ 2 ^ 64
    → Runs n s
    → (i j t u : ℕ) → i < n
    → j < n
    → i ≢ j
    → s.place i ≡ holding t
    → s.place j ≢ holding u
ticket_exclusion {n} {s} few r i j t u h g ne e f =
    let inv = Runs-Inv few r in
    one_first s.lock (sum_below waits n s.place) (s.place i) (s.place j) t u e f (inv.fits i h)
      (inv.fits j g) (inv.differ i j h g ne)
