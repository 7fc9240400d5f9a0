-- ===== src/Pointer.antt =====
-- klib/src/strange.rs: `KernelPtr48`, six bytes that stand for an address in the upper part.
use mars.Prelude.{
  ℕ, zero, suc, ◌*◌, ◌/◌, ◌%◌, ◌^◌, ◌≤◌, ◌<◌, ◌≡◌, refl, true, false, not, Option, none, some, List,
  [], ◌∷◌, ◌++◌, arith, ◌==◌, if◌then◌else◌, take, drop,
}
use mars.Aml.Reader.{from_le_bytes}

-- The bytes of a number, least first: `usize::to_le_bytes` for eight.
unfoldable pub to_le_bytes : ℕ → ℕ → List ℕ
to_le_bytes zero v = []
to_le_bytes (suc n) v = v % 256 ∷ to_le_bytes n (v / 256)

-- `KernelPtr48::new`; `none` is the error `Ineligible`.
unfoldable pub new : ℕ → Option (List ℕ)
unfolding to_le_bytes from_le_bytes
new f =
    let bytes = to_le_bytes 8 f in
    if not (from_le_bytes (drop 6 bytes) == 0xFFFF) then none else some (take 6 bytes)

-- `KernelPtr48::get`.
unfoldable pub get : List ℕ → ℕ
unfolding from_le_bytes
get bytes = from_le_bytes (take 6 bytes ++ 0xFF ∷ 0xFF ∷ [])

top_bytes : (f : ℕ) → f < 2 ^ 64 → from_le_bytes (drop 6 (to_le_bytes 8 f)) ≡ f / 2 ^ 48
unfolding from_le_bytes to_le_bytes
top_bytes f h = omega arith

-- `new` takes exactly the addresses below 2 ^ 64 whose two highest bytes are 0xFFFF, and `get` gives
-- back the address that `new` was given.
pub get-new :
    (f : ℕ)
    → f < 2 ^ 64
    → (0xFFFF * 2 ^ 48 ≤ f → (k : List ℕ) × (new f ≡ some k) × (get k ≡ f))
      × (f < 0xFFFF * 2 ^ 48 → new f ≡ none)
unfolding new get to_le_bytes from_le_bytes
get-new f h =
    let top = top_bytes f h in
    (
      λ le.
          let eligible : (from_le_bytes (drop 6 (to_le_bytes 8 f)) == 0xFFFF) ≡ true =
            ground arith in
          (take 6 (to_le_bytes 8 f), rw (new, eligible) refl, omega arith),
      λ lt.
          let other : (from_le_bytes (drop 6 (to_le_bytes 8 f)) == 0xFFFF) ≡ false = ground arith in
          rw (new, other) refl,
    )
