-- ===== src/Pcie/Ends.antt =====
-- kernel/drivers/pcie/src/capability: the iterators end, whatever the function answers.
use mars.Prelude.{
  ℕ, subst, zero, suc, ◌*◌, ◌/◌, ◌%◌, ◌≤◌, ◌<◌, ◌≡◌, refl, ap, ◌⊎◌, inl, inr, Bool, true, false,
  ◌||◌, Option, none, some, List, [], ◌∷◌, arith, ltb, ◌==◌, if◌then◌else◌, Bool-cases, length,
}
use mars.Prelude.Family.{update, sum_below, sum_below-update, sum_below-le}
use mars.Pages.Requests.{AddressTranslator}
use mars.Pages.Reserve.{done}
use mars.Pcie.Ecam.{Bdf, Ecam, Mmio, read_u8, read_u16, ◌>>=◌, peek}
use mars.Pcie.Ids.{StandardCapabilityId, from_u8, same_standard}
use mars.Pcie.Capabilities.{
  StandardCapIter, slot, next_standard, all_standard, find_standard, find_capability, new_standard,
}

abbrev unset : Bool → ℕ
unset true = 0
unset false = 1

unset_le : (b : Bool) → unset b ≤ 1
unset_le true = omega arith
unset_le false = omega arith

-- Items that start at slots which are not visited, each at another one, inside the configuration space.
abbrev pub Visits : {I : Type 0} → (ℕ → Bool) → List (I × ℕ) → Type 0
Visits v [] = Unit
Visits v ((id, offset) ∷ items) =
    (v (slot offset) ≡ false)
    × (64 ≤ offset)
    × (offset ≤ 252)
    × Visits (update v (slot offset) true) items

-- The offset of the first item with an equal identifier.
abbrev pub first_with : StandardCapabilityId → List (StandardCapabilityId × ℕ) → Option ℕ
first_with target [] = none
first_with target ((id, offset) ∷ items) =
    let rest = first_with target items in if same_standard id target then some offset else rest

module _ {S : Type 0} (hw : Mmio S) (tr : AddressTranslator) (e : Ecam) (b : Bdf) (s : S) where
  -- One call ends the iteration, or visits a slot.
  record Visited (it : StandardCapIter) : Type 0 where
    id : StandardCapabilityId
    item : (next_standard hw tr e b s it).0 ≡ some (id, it.next_ptr)
    fresh : it.visited (slot it.next_ptr) ≡ false
    low : 64 ≤ it.next_ptr
    high : it.next_ptr ≤ 252
    marks : (next_standard hw tr e b s it).1.visited ≡ update it.visited (slot it.next_ptr) true

  next_standard-cases :
      (it : StandardCapIter) → ((next_standard hw tr e b s it).0 ≡ none) ⊎ Visited it
  unfolding next_standard
  next_standard-cases it = elim (Bool-cases (ltb it.next_ptr 64 || ltb 252 it.next_ptr)) [
    | inl out ↦ inl (rw out refl)
    | inr in_range ↦ elim (Bool-cases (it.visited (slot it.next_ptr))) [
      | inl seen ↦ inl (rw (in_range, seen) refl)
      | inr fresh ↦ inr (record {
        id = from_u8 (read_u8 hw tr e b it.next_ptr s);
        item = rw (in_range, fresh) refl;
        fresh = fresh;
        low = ground arith;
        high = ground arith;
        marks = rw (in_range, fresh) refl;
      })
    ]
  ]

  -- The iterator ends, and the search stops at the first item that fits.
  pub record Ended (target : StandardCapabilityId) (fuel : ℕ) (it : StandardCapIter) : Type 0 where
    pub items : List (StandardCapabilityId × ℕ)
    pub all : all_standard hw tr e b s fuel it ≡ done items
    pub found : find_standard hw tr e b s fuel target it ≡ done (first_with target items)
    pub few : length items ≤ sum_below unset 64 it.visited
    pub visits : Visits it.visited items

  fewer :
      (it : StandardCapIter)
      → (seen : Visited it)
      → suc (sum_below unset 64 (next_standard hw tr e b s it).1.visited)
        ≡ sum_below unset 64 it.visited
  fewer it seen =
      let moved = sum_below-update unset 64 it.visited (slot it.next_ptr) true (omega arith) in
      let free : unset (it.visited (slot it.next_ptr)) ≡ 1 = ap unset seen.fresh in
      let same : sum_below unset 64 (next_standard hw tr e b s it).1.visited
          ≡ sum_below unset 64 (update it.visited (slot it.next_ptr) true) =
        ap (sum_below unset 64) seen.marks in
      omega (arith, moved, free, same)

  standard-Ended :
      (target : StandardCapabilityId) (fuel : ℕ) (it : StandardCapIter)
      → sum_below unset 64 it.visited < fuel
      → Ended target fuel it
  unfolding all_standard find_standard
  standard-Ended target zero it enough = absurd (omega arith)
  standard-Ended target (suc fuel) it enough = elim (next_standard-cases it) [
    | inl end ↦ record {
      items = [];
      all = rw (all_standard, end) refl;
      found = rw (find_standard, end) refl;
      few = omega arith;
      visits = tt;
    }
    | inr seen ↦
        let ih =
          standard-Ended target fuel (next_standard hw tr e b s it).1
            (omega (arith, fewer it seen)) in
        record {
          items = (seen.id, it.next_ptr) ∷ ih.items;
          all = rw (all_standard, seen.item, ih.all) refl;
          found = elim (Bool-cases (same_standard seen.id target)) [
            | inl same ↦ rw (find_standard, seen.item, ih.found, same) refl
            | inr other ↦ rw (find_standard, seen.item, ih.found, other) refl
          ];
          few = omega (arith, fewer it seen, ih.few);
          visits = (
            seen.fresh,
            seen.low,
            seen.high,
            subst (λ v. Visits v ih.items) seen.marks ih.visits,
          );
        }
  ]

  -- Whatever the registers of a function say, the list of its capabilities ends: it has at most 64 items,
  -- at different slots between the offsets 64 and 252. `find_capability` ends with the offset of the
  -- first item that has the identifier.
  pub find_capability-ends :
      (target : StandardCapabilityId)
      → (items : List (StandardCapabilityId × ℕ)) × (new_standard hw tr e b s
            >>= all_standard hw tr e b s 65
          ≡ done items)
        × (find_capability hw tr e b s target ≡ done (first_with target items))
        × (length items ≤ 64)
        × Visits (λ k. false) items
  unfolding find_capability new_standard read_u16
  find_capability-ends target =
      let it : StandardCapIter = record {
        next_ptr = if peek hw tr 2 e b 6 s / 16 % 2 == 1 then read_u8 hw tr e b 52 s / 4 * 4 else 0;
        visited = λ k. false;
      } in
      let ended =
        standard-Ended target 65 it (omega (arith, sum_below-le unset unset_le 64 (λ k. false))) in
      (
        ended.items,
        ended.all,
        ended.found,
        omega (arith, ended.few, sum_below-le unset unset_le 64 (λ k. false)),
        ended.visits,
      )
