-- ===== src/Pcie/Capabilities.antt =====
-- kernel/drivers/pcie/src/capability: the iterators over the capabilities of a function. The function
-- answers every read of a register in the same way while they run.
use mars.Prelude.{
  ℕ, zero, suc, ◌+◌, ◌-◌, ◌*◌, ◌/◌, ◌%◌, ◌^◌, Bool, true, false, ◌||◌, Option, none, some, List, [],
  ◌∷◌, ltb, leb, ◌==◌, if◌then◌else◌,
}
use mars.Prelude.Family.{update}
use mars.Pages.Requests.{AddressTranslator}
use mars.Pages.Reserve.{Outcome, done, out_of_fuel}
use mars.Pcie.Ecam.{Bdf, Ecam, Mmio, read_u8, read_u16, read_u32, ◌>>=◌}
use mars.Pcie.Ids.{StandardCapabilityId, from_u8, same_standard}
use mars.Pcie.ExtendedIds.{ExtendedCapabilityId, from_u16, same_extended}

-- The word `visited` by its bits.
pub record StandardCapIter : Type 0 where
  pub next_ptr : ℕ
  pub visited : ℕ → Bool

pub record ExtendedCapIter : Type 0 where
  pub next_ptr : ℕ
  pub count : ℕ

abbrev pub slot : ℕ → ℕ
slot current = current / 4 % 64

abbrev pub new_extended : ExtendedCapIter
new_extended = record { next_ptr = 256; count = 0 }

module _ {S : Type 0} (hw : Mmio S) (tr : AddressTranslator) (e : Ecam) (b : Bdf) (s : S) where
  unfoldable pub new_standard : Outcome StandardCapIter
  new_standard = read_u16 hw tr e b 6 s >>= λ status. done (record {
    next_ptr = if status / 16 % 2 == 1 then read_u8 hw tr e b 52 s / 4 * 4 else 0;
    visited = λ k. false;
  })

  unfoldable pub next_standard :
      StandardCapIter → Option (StandardCapabilityId × ℕ) × StandardCapIter
  next_standard it =
      let current = it.next_ptr in
      if ltb current 64 || ltb 252 current
      then (none, it)
      else if it.visited (slot current)
      then (none, it)
      else (
        some (from_u8 (read_u8 hw tr e b current s), current),
        record {
          next_ptr = read_u8 hw tr e b (current + 1) s / 4 * 4;
          visited = update it.visited (slot current) true;
        },
      )

  unfoldable pub next_extended :
      ExtendedCapIter → Outcome (Option (ExtendedCapabilityId × ℕ) × ExtendedCapIter)
  next_extended it =
      let current = it.next_ptr in
      if ltb current 256 || ltb 4092 current || leb 64 it.count
      then done (none, it)
      else read_u32 hw tr e b current s >>= λ header.
          if header == 0 || header == 2 ^ 32 - 1
          then done (none, it)
          else done (
            some (from_u16 (header % 65536), current),
            record { next_ptr = header / 2 ^ 20 % 4096; count = it.count + 1 },
          )

  -- The iterator run to its end.
  unfoldable pub all_standard : ℕ → StandardCapIter → Outcome (List (StandardCapabilityId × ℕ))
  all_standard zero it = out_of_fuel
  all_standard (suc fuel) it =
      let rest = all_standard fuel (next_standard it).1 in
      elim (next_standard it).0 [
        | none ↦ done []
        | some item ↦ rest >>= λ items. done (item ∷ items)
      ]

  unfoldable pub all_extended : ℕ → ExtendedCapIter → Outcome (List (ExtendedCapabilityId × ℕ))
  all_extended zero it = out_of_fuel
  all_extended (suc fuel) it =
      let rest = λ (found : Option (ExtendedCapabilityId × ℕ) × ExtendedCapIter).
        all_extended fuel found.1 >>= λ items.
        done (elim found.0 [ none ↦ items | some x ↦ x ∷ items ]) in
      next_extended it >>= λ found. elim found.0 [ none ↦ done [] | some item ↦ rest found ]

  -- `find_map` on the iterator.
  unfoldable pub find_standard : ℕ → StandardCapabilityId → StandardCapIter → Outcome (Option ℕ)
  find_standard zero target it = out_of_fuel
  find_standard (suc fuel) target it =
      let rest = find_standard fuel target (next_standard it).1 in
      elim (next_standard it).0 [
        | none ↦ done none
        | some (id, offset) ↦ if same_standard id target then done (some offset) else rest
      ]

  unfoldable pub find_extended : ℕ → ExtendedCapabilityId → ExtendedCapIter → Outcome (Option ℕ)
  find_extended zero target it = out_of_fuel
  find_extended (suc fuel) target it =
      let rest = λ (next : ExtendedCapIter). find_extended fuel target next in
      next_extended it >>= λ found. elim found.0 [
        | none ↦ done none
        | some (id, offset) ↦ if same_extended id target then done (some offset) else rest found.1
      ]

  unfoldable pub find_capability : StandardCapabilityId → Outcome (Option ℕ)
  unfolding find_standard new_standard
  find_capability target = new_standard >>= λ it. find_standard 65 target it

  unfoldable pub find_extended_capability : ExtendedCapabilityId → Outcome (Option ℕ)
  unfolding find_extended
  find_extended_capability target = find_extended 65 target new_extended
