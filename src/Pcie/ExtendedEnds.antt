-- ===== src/Pcie/ExtendedEnds.antt =====
-- kernel/drivers/pcie/src/capability/extended.rs: the iterator ends, or panics at a bad pointer.
use mars.Prelude.{
  ℕ, zero, suc, ◌+◌, ◌-◌, ◌/◌, ◌%◌, ◌^◌, ◌≤◌, ◌<◌, ◌≡◌, refl, ◌≢◌, ◌⊎◌, inl, inr, false, ◌||◌, none,
  some, List, [], ◌∷◌, arith, ltb, leb, ◌==◌, Bool-cases, length,
}
use mars.Pages.Requests.{AddressTranslator}
use mars.Pages.Reserve.{done, panic}
use mars.Pcie.Ecam.{Bdf, Ecam, Mmio, peek, read_u32}
use mars.Pcie.ExtendedIds.{ExtendedCapabilityId, from_u16}
use mars.Pcie.Capabilities.{ExtendedCapIter, next_extended, all_extended}

-- Offsets of the extended configuration space.
abbrev pub Extended : {I : Type 0} → List (I × ℕ) → Type 0
Extended [] = Unit
Extended ((id, offset) ∷ items) = (256 ≤ offset) × (offset ≤ 4092) × Extended items

module _ {S : Type 0} (hw : Mmio S) (tr : AddressTranslator) (e : Ecam) (b : Bdf) (s : S) where
  -- At a pointer inside the extended space that is not a multiple of four, the iterator panics.
  pub next_extended-panics :
      (it : ExtendedCapIter)
      → 256 ≤ it.next_ptr
      → it.next_ptr ≤ 4092
      → it.next_ptr % 4 ≢ 0
      → it.count < 64
      → next_extended hw tr e b s it ≡ panic
  unfolding next_extended read_u32
  next_extended-panics it low high odd few =
      let inside : (ltb it.next_ptr 256 || ltb 4092 it.next_ptr || leb 64 it.count) ≡ false =
        ground arith in
      let unaligned : (it.next_ptr % 4 == 0) ≡ false = ground arith in rw (inside, unaligned) refl

  record Stepped (it : ExtendedCapIter) : Type 0 where
    id : ExtendedCapabilityId
    next : ExtendedCapIter
    item : next_extended hw tr e b s it ≡ done (some (id, it.next_ptr), next)
    low : 256 ≤ it.next_ptr
    high : it.next_ptr ≤ 4092
    few : it.count < 64
    counts : next.count ≡ it.count + 1

  next_extended-cases :
      (it : ExtendedCapIter)
      → (next_extended hw tr e b s it ≡ panic)
        ⊎ (next_extended hw tr e b s it ≡ done (none, it))
        ⊎ Stepped it
  unfolding next_extended read_u32
  next_extended-cases it =
      elim (Bool-cases (ltb it.next_ptr 256 || ltb 4092 it.next_ptr || leb 64 it.count)) [
        | inl out ↦ inr (inl (rw out refl))
        | inr inside ↦ elim (Bool-cases (it.next_ptr % 4 == 0)) [
          | inr odd ↦ inl (rw (inside, odd) refl)
          | inl aligned ↦
              let header = peek hw tr 4 e b it.next_ptr s in
              elim (Bool-cases (header == 0 || header == 2 ^ 32 - 1)) [
                | inl end ↦ inr (inl (rw (inside, aligned, end) refl))
                | inr more ↦ inr (
                    inr (record {
                      id = from_u16 (header % 65536);
                      next = record { next_ptr = header / 2 ^ 20 % 4096; count = it.count + 1 };
                      item = rw (inside, aligned, more) refl;
                      low = ground arith;
                      high = ground arith;
                      few = ground arith;
                      counts = refl;
                    }))
              ]
        ]
      ]

  -- Whatever the registers say, the iterator ends or panics: an iterator that has given `count` items
  -- gives at most 64 - `count` more, all inside the extended space.
  pub all_extended-ends :
      (fuel : ℕ) (it : ExtendedCapIter)
      → 64 < fuel + it.count
      → it.count ≤ 64
      → (all_extended hw tr e b s fuel it ≡ panic)
        ⊎ ((items : List (ExtendedCapabilityId × ℕ)) × (all_extended hw tr e b s fuel it
              ≡ done items)
            × (length items ≤ 64 - it.count)
            × Extended items)
  unfolding all_extended
  all_extended-ends zero it enough le = absurd (omega arith)
  all_extended-ends (suc fuel) it enough le = elim (next_extended-cases it) [
    | inl bad ↦ inl (rw (all_extended, bad) refl)
    | inr (inl end) ↦ inr ([], rw (all_extended, end) refl, omega arith, tt)
    | inr (inr step) ↦
        elim (all_extended-ends fuel step.next (omega (arith, step.counts))
          (omega (arith, step.counts, step.few))) [
            | inl bad ↦ inl (rw (all_extended, step.item, bad) refl)
            | inr (items, all, few, inside) ↦ inr (
              (step.id, it.next_ptr) ∷ items,
              rw (all_extended, step.item, all) refl,
              omega (arith, step.counts, step.few, few),
              (step.low, step.high, inside),
            )
          ]
  ]
