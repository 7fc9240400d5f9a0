-- ===== src/Tests/Aml.antt =====
-- Inputs for Aml: a scope with a device in it.
use mars.Aml.Progress.{parse_next-advances}
use mars.Aml.PkgLength.{read_pkg_length-pkg_length}
use mars.Aml.Types.{new, got, failed, scope, underflow, out_of_fuel, AmlTerm}
use mars.Aml.Reader.{read_pkg_length}
use mars.Aml.Parser.{parse_next}
use mars.Prelude.{ℕ, ◌≤◌, ◌<◌, ◌≡◌, refl, ◌≢◌, ◌↔◌, Bool, true, none, some, List, [], ◌∷◌, arith}

-- Every string is taken to be valid.
abbrev all_valid : List ℕ → Bool
all_valid bs = true

-- Scope(\_SB) with 8 bytes of contents, the device PCI0.
abbrev scope_bytes : List ℕ
scope_bytes =
    0x10 ∷ 0x0E ∷ 0x5C ∷ 0x5F ∷ 0x53 ∷ 0x42 ∷ 0x5F ∷ 0x5B ∷ 0x82 ∷ 0x06 ∷ 0x50 ∷ 0x43 ∷ 0x49 ∷ 0x30
    ∷ 0x00 ∷ []

-- The scope takes all of the bytes, and its contents are the device.
parse_scope : parse_next all_valid (new scope_bytes) ≡ (
  got (
      some (
        scope
          (0x5C ∷ 0x5F ∷ 0x53 ∷ 0x42 ∷ 0x5F ∷ [])
          (new (0x5B ∷ 0x82 ∷ 0x06 ∷ 0x50 ∷ 0x43 ∷ 0x49 ∷ 0x30 ∷ 0x00 ∷ [])))),
  record { bytes = scope_bytes; cursor = 15 },
)
unfolding parse_next
parse_scope = refl

-- A string without an end is an error.
parse_unended :
    (parse_next all_valid (new (0x08 ∷ 0x41 ∷ 0x42 ∷ 0x43 ∷ 0x44 ∷ 0x0D ∷ 0x78 ∷ []))).0
    ≡ failed underflow
unfolding parse_next
parse_unended = refl

parse_next-advances_example :
    let (result, after) = parse_next all_valid (new scope_bytes) in
    (result ≢ failed out_of_fuel)
    × (after.bytes ≡ scope_bytes)
    × (0 ≤ after.cursor)
    × (after.cursor ≤ 15)
    × ((term : AmlTerm) → result ≡ got (some term) → 0 < after.cursor)
    × ((result ≡ got none) ↔ ((new scope_bytes).cursor ≡ 15))
parse_next-advances_example = parse_next-advances all_valid (new scope_bytes) (omega arith)

-- 0x1234 in two bytes behind the first.
read_pkg_length-pkg_length_example :
    read_pkg_length (new (0x84 ∷ 0x23 ∷ 0x01 ∷ 0x99 ∷ []))
    ≡ (got 0x1234, record { bytes = 0x84 ∷ 0x23 ∷ 0x01 ∷ 0x99 ∷ []; cursor = 3 })
read_pkg_length-pkg_length_example =
    read_pkg_length-pkg_length 2 0x1234 (new (0x84 ∷ 0x23 ∷ 0x01 ∷ 0x99 ∷ [])) (0x99 ∷ [])
      (omega arith, omega arith) refl
