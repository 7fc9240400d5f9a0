-- ===== src/Tests/Resources.antt =====
-- Inputs for Aml/Templates: a template with an interrupt mask, a fixed range of memory and an end tag.
use mars.Aml.Reader.{from_le_bytes}
use mars.Aml.Resources.{
  chunks, into_rss, next, decode, header, masked, cut, irq, mmio, irq_mask, mmio_range, le_field,
}
use mars.Aml.Templates.{chunks-NonePanics, joined, NonePanics}
use mars.Prelude.{ℕ, ◌≡◌, refl, none, some, List, [], ◌∷◌, ◌++◌, arith, take, drop}

abbrev template : List ℕ
template =
    0x22 ∷ 0x12 ∷ 0x00 ∷ 0x86 ∷ 0x09 ∷ 0x00 ∷ 0x01 ∷ 0x00 ∷ 0x10 ∷ 0x00 ∷ 0x00 ∷ 0x00 ∷ 0x02 ∷ 0x00
    ∷ 0x00 ∷ 0x79 ∷ 0x00 ∷ []

template-chunks :
    chunks 17 template ≡ (take 3 template ∷ take 12 (drop 3 template) ∷ [], 0x79 ∷ 0x00 ∷ [])
unfolding chunks next header cut from_le_bytes
template-chunks = refl

template-resources :
    (into_rss (take 3 template) ≡ some (irq 1 ∷ irq 4 ∷ []))
    × (into_rss (take 12 (drop 3 template)) ≡ some (mmio 0x1000 0x1200 ∷ []))
unfolding into_rss decode irq_mask masked mmio_range le_field from_le_bytes
template-resources = (refl, refl)

chunks-NonePanics_example :
    let (found, left) = chunks 17 template in
    (joined found ++ left ≡ template) × (next left ≡ none) × NonePanics found
chunks-NonePanics_example = chunks-NonePanics 17 template (omega arith)
