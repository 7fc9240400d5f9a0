-- ===== src/Tests/Names.antt =====
-- Inputs for Aml/Names: the names of ACPI 6.5, 20.2.2, and device numbers.

use mars.Aml.Text.{path_to_string, as_string}
use mars.Prelude.{◌≡◌, refl, some, [], ◌∷◌}
use mars.Aml.Types.{AmlValue}

-- \_SB.PCI0: a root character, then two segments.
text_of_path :
    path_to_string (0x5C ∷ 0x2E ∷ 0x5F ∷ 0x53 ∷ 0x42 ∷ 0x5F ∷ 0x50 ∷ 0x43 ∷ 0x49 ∷ 0x30 ∷ [])
    ≡ 0x5C ∷ 0x5F ∷ 0x53 ∷ 0x42 ∷ 0x2E ∷ 0x50 ∷ 0x43 ∷ 0x49 ∷ 0x30 ∷ []
unfolding path_to_string
text_of_path = refl

-- The number 0x080AD041, as EISAID("PNP0A08") is stored in AML, has not PNP0A08 as its text: the
-- text begins with B.
text_of_eisa_id :
    as_string (AmlValue.integer 0x080AD041)
    ≡ some (0x42 ∷ 0x40 ∷ 0x4A ∷ 0x44 ∷ 0x30 ∷ 0x34 ∷ 0x31 ∷ [])
unfolding as_string
text_of_eisa_id = refl

-- With its bytes in the opposite order it has.
text_of_swapped_id :
    as_string (AmlValue.integer 0x41D00A08)
    ≡ some (0x50 ∷ 0x4E ∷ 0x50 ∷ 0x30 ∷ 0x41 ∷ 0x30 ∷ 0x38 ∷ [])
unfolding as_string
text_of_swapped_id = refl
