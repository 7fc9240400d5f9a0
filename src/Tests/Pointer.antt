-- ===== src/Tests/Pointer.antt =====
-- Inputs for Pointer: an address in the upper part, and one in the lower.
use mars.Pointer.{new, to_le_bytes}
use mars.Aml.Reader.{from_le_bytes}
use mars.Prelude.{◌≡◌, refl, none, some, [], ◌∷◌}

upper : new 0xFFFF800012345678 ≡ some (0x78 ∷ 0x56 ∷ 0x34 ∷ 0x12 ∷ 0x00 ∷ 0x80 ∷ [])
unfolding new to_le_bytes from_le_bytes
upper = refl

lower : new 0x12345678 ≡ none
unfolding new to_le_bytes from_le_bytes
lower = refl
