-- ===== src/Mmap/Ranges.antt =====
-- kernel/src/earlyinit/mem.rs: the ranges that `populate_alloc_stage1` hands to `flush`.
use mars.Prelude.{
  ℕ, ◌+◌, ◌*◌, ◌≤◌, ◌<◌, ◌≡◌, refl, sym, ◌↔◌, ◌⊎◌, inl, inr, true, false, List, [], ◌∷◌, arith,
  dec_lt, ◌==◌, Bool-cases,
}
use mars.Pages.Reserve.{Outcome, done, panic, out_of_fuel}
use mars.Pages.Memory.{PageAllocator}
use mars.Mmap.{Uefi, MemoryDescriptor, is_normal_desc, end_address}
use mars.Mmap.Cover.{Fits, AllFit}
use mars.Mmap.Populate.{populate, populate_from, and_then}

-- The calls of `write` on some ranges, one after the other.
abbrev pub run :
    (ℕ → ℕ → PageAllocator → Outcome PageAllocator)
    → List (ℕ × ℕ)
    → PageAllocator
    → Outcome PageAllocator
run write [] a = done a
run write ((start, end) ∷ ranges) a = and_then (write start end a) (run write ranges)

abbrev pub InRange : ℕ → ℕ → ℕ → Type 0
InRange address start end = (start ≤ address) × (address < end)

abbrev pub InRanges : ℕ → List (ℕ × ℕ) → Type 0
InRanges address [] = ⊥
InRanges address ((start, end) ∷ ranges) = InRange address start end ⊎ InRanges address ranges

-- An address of a normal entry.
abbrev pub IsNormal : Uefi → ℕ → List MemoryDescriptor → Type 0
IsNormal u address [] = ⊥
IsNormal u address (d ∷ entries) =
    ((is_normal_desc u d ≡ true)
      × InRange address d.phys_start (d.phys_start + d.page_count * 4096))
    ⊎ IsNormal u address entries

-- Ranges which a loop from `start` and `end` on hands to `write`.
record Flushes (u : Uefi) (start end : ℕ) (entries : List MemoryDescriptor) (ranges : List (ℕ × ℕ))
    : Type 0 where
  calls :
      (write : ℕ → ℕ → PageAllocator → Outcome PageAllocator) (a : PageAllocator)
      → populate_from u write start end entries a ≡ run write ranges a
  covers :
      (address : ℕ)
      → InRanges address ranges ↔ InRange address start end ⊎ IsNormal u address entries

and_then-done : (r : Outcome PageAllocator) → and_then r done ≡ r
and_then-done (done a) = refl
and_then-done panic = refl
and_then-done out_of_fuel = refl

and_then-same :
    (r : Outcome PageAllocator) (f g : PageAllocator → Outcome PageAllocator)
    → ((a : PageAllocator) → f a ≡ g a)
    → and_then r f ≡ and_then r g
and_then-same (done a) f g same = same a
and_then-same panic f g same = refl
and_then-same out_of_fuel f g same = refl

module _ (u : Uefi) (start end : ℕ) (d : MemoryDescriptor) (entries : List MemoryDescriptor)
    (ranges : List (ℕ × ℕ)) where
  -- An entry that is not normal is passed over.
  other-Flushes :
      is_normal_desc u d ≡ false
      → Flushes u start end entries ranges
      → Flushes u start end (d ∷ entries) ranges
  unfolding populate_from
  other-Flushes other fl = record {
    calls = λ write a. rw other (fl.calls write a);
    covers = λ address.
        let (to, from) = fl.covers address in
        (
          λ h. elim (to h) [ inl x ↦ inl x | inr x ↦ inr (inr x) ],
          λ h. elim h [
            | inl x ↦ from (inl x)
            | inr (inl (n, _)) ↦ absurd (ground (arith, n, other))
            | inr (inr x) ↦ from (inr x)
          ],
        );
  }

  -- A normal entry at the end of the range makes it longer.
  longer-Flushes :
      start ≤ end
      → Fits d
      → is_normal_desc u d ≡ true
      → (end == d.phys_start) ≡ true
      → Flushes u start (end_address d) entries ranges
      → Flushes u start end (d ∷ entries) ranges
  unfolding populate_from
  longer-Flushes le f normal touches fl =
      let last : end_address d ≡ d.phys_start + d.page_count * 4096 = omega (arith, f) in
      let joint : end ≡ d.phys_start = ground (arith, touches) in
      record {
        calls = λ write a. rw (normal, touches) (fl.calls write a);
        covers = λ address.
            let (to, from) = fl.covers address in
            (
              λ h. elim (to h) [
                | inr x ↦ inr (inr x)
                | inl (ge, lt) ↦ elim (dec_lt address end) [
                  | yes low ↦ inl (ge, low)
                  | no high ↦ inr (inl (normal, (omega (arith, joint), omega (arith, lt, last))))
                ]
              ],
              λ h. elim h [
                | inl (ge, lt) ↦ from (inl (ge, omega (arith, lt, last, joint)))
                | inr (inl (_, (ge, lt))) ↦
                    from (inl (omega (arith, ge, joint, le), omega (arith, lt, last)))
                | inr (inr x) ↦ from (inr x)
              ],
            );
      }

  -- Another normal entry begins a new range.
  apart-Flushes :
      Fits d
      → is_normal_desc u d ≡ true
      → (end == d.phys_start) ≡ false
      → Flushes u d.phys_start (end_address d) entries ranges
      → Flushes u start end (d ∷ entries) ((start, end) ∷ ranges)
  unfolding populate_from
  apart-Flushes f normal apart fl =
      let last : end_address d ≡ d.phys_start + d.page_count * 4096 = omega (arith, f) in
      record {
        calls = λ write a.
            rw (normal, apart)
              (and_then-same (write start end a)
                (populate_from u write d.phys_start (end_address d) entries) (run write ranges)
                (fl.calls write));
        covers = λ address.
            let (to, from) = fl.covers address in
            (
              λ h. elim h [
                | inl x ↦ inl x
                | inr x ↦ elim (to x) [
                  | inl (ge, lt) ↦ inr (inl (normal, (ge, omega (arith, lt, last))))
                  | inr y ↦ inr (inr y)
                ]
              ],
              λ h. elim h [
                | inl x ↦ inl x
                | inr (inl (_, (ge, lt))) ↦ inr (from (inl (ge, omega (arith, lt, last))))
                | inr (inr x) ↦ inr (from (inr x))
              ],
            );
      }

populate_from-Flushes :
    (u : Uefi) (start end : ℕ) (entries : List MemoryDescriptor)
    → start ≤ end
    → AllFit entries
    → (ranges : List (ℕ × ℕ)) × Flushes u start end entries ranges
unfolding populate_from
populate_from-Flushes u start end [] le fs = (
  (start, end) ∷ [],
  record {
    calls = λ write a. sym (and_then-done (write start end a));
    covers = λ address. (λ h. h, λ h. h);
  },
)
populate_from-Flushes u start end (d ∷ entries) le (f, fs) =
    elim (Bool-cases (is_normal_desc u d)) [
      | inr other ↦
          let (ranges, fl) = populate_from-Flushes u start end entries le fs in
          (ranges, other-Flushes u start end d entries ranges other fl)
      | inl normal ↦ elim (Bool-cases (end == d.phys_start)) [
        | inl touches ↦
            let joint : end ≡ d.phys_start = ground (arith, touches) in
            let (ranges, fl) =
              populate_from-Flushes u start (end_address d) entries (omega (arith, f, joint, le))
                fs in
            (ranges, longer-Flushes u start end d entries ranges le f normal touches fl)
        | inr apart ↦
            let (ranges, fl) =
              populate_from-Flushes u d.phys_start (end_address d) entries (omega (arith, f)) fs in
            ((start, end) ∷ ranges, apart-Flushes u start end d entries ranges f normal apart fl)
      ]
    ]

-- The loop of `populate_alloc_stage1` calls `flush` on ranges one after the other, until a call fails,
-- and an address is in one of the ranges exactly when it is in a normal entry. This is for entries
-- that end below 2 ^ 64.
pub populate-ranges :
    (u : Uefi) (entries : List MemoryDescriptor)
    → AllFit entries
    → (ranges : List (ℕ × ℕ)) × ((write : ℕ → ℕ → PageAllocator → Outcome PageAllocator)
          (a : PageAllocator)
        → populate u write entries a ≡ run write ranges a)
      × ((address : ℕ) → InRanges address ranges ↔ IsNormal u address entries)
unfolding populate
populate-ranges u [] fs = ([], λ write a. refl, λ address. (λ h. h, λ h. h))
populate-ranges u (d ∷ entries) (f, fs) = elim (Bool-cases (is_normal_desc u d)) [
  | inr other ↦
      let (ranges, calls, covers) = populate-ranges u entries fs in
      (
        ranges,
        λ write a. rw other (calls write a),
        λ address. (
          λ h. inr ((covers address).0 h),
          λ h. elim h [
            | inl (n, _) ↦ absurd (ground (arith, n, other))
            | inr x ↦ (covers address).1 x
          ],
        ),
      )
  | inl normal ↦
      let last : end_address d ≡ d.phys_start + d.page_count * 4096 = omega (arith, f) in
      let (ranges, fl) =
        populate_from-Flushes u d.phys_start (end_address d) entries (omega (arith, f)) fs in
      (
        ranges,
        λ write a. rw normal (fl.calls write a),
        λ address.
            let (to, from) = fl.covers address in
            (
              λ h. elim (to h) [
                | inl (ge, lt) ↦ inl (normal, (ge, omega (arith, lt, last)))
                | inr x ↦ inr x
              ],
              λ h. elim h [
                | inl (_, (ge, lt)) ↦ from (inl (ge, omega (arith, lt, last)))
                | inr x ↦ from (inr x)
              ],
            ),
      )
]
