-- ===== src/Mmap/Cover.antt =====
-- kernel/src/earlyinit/mem.rs: the merged memory map describes the memory that the old one did.
use mars.Prelude.{
  ℕ, ◌+◌, ◌*◌, ◌%◌, ◌^◌, ◌≤◌, ◌<◌, ◌≡◌, sym, ◌∙◌, ◌↔◌, ◌⊎◌, inl, inr, true, List, [], ◌∷◌, map,
  arith, dec_lt, Bool-cases,
}
use mars.Mmap.{
  Uefi, MemoryDescriptor, can_merge, grown, processed, write_from, write_all, becomes_conventional,
}

-- An address in a descriptor of this type and with these attributes.
abbrev pub Holds : ℕ → ℕ → ℕ → MemoryDescriptor → Type 0
Holds address ty att d =
    (d.phys_start ≤ address)
    × (address < d.phys_start + d.page_count * 4096)
    × (d.ty ≡ ty)
    × (d.att ≡ att)

abbrev pub Described : ℕ → ℕ → ℕ → List MemoryDescriptor → Type 0
Described address ty att [] = ⊥
Described address ty att (d ∷ ds) = Holds address ty att d ⊎ Described address ty att ds

-- A descriptor ends below 2 ^ 64.
abbrev pub Fits : MemoryDescriptor → Type 0
Fits d = d.phys_start + d.page_count * 4096 < 2 ^ 64

abbrev pub AllFit : List MemoryDescriptor → Type 0
AllFit [] = Unit
AllFit (d ∷ ds) = Fits d × AllFit ds

abbrev pub single : MemoryDescriptor → List MemoryDescriptor
single d = d ∷ []

record Merges (last current : MemoryDescriptor) : Type 0 where
  touches : last.phys_start + last.page_count * 4096 ≡ current.phys_start
  same_ty : last.ty ≡ current.ty
  same_att : last.att ≡ current.att
  count : (last.page_count + current.page_count) % 2 ^ 64 ≡ last.page_count + current.page_count

can_merge-Merges :
    (last current : MemoryDescriptor)
    → Fits last
    → Fits current
    → can_merge last current ≡ true
    → Merges last current
unfolding can_merge
can_merge-Merges last current f g e = record {
  touches = ground arith;
  same_ty = ground arith;
  same_att = ground arith;
  count = omega arith;
}

pub processed-Fits : (u : Uefi) (d : MemoryDescriptor) → Fits d → Fits (processed u d)
unfolding processed
processed-Fits u d f = elim (Bool-cases (becomes_conventional u d)) [
  | inl yes' ↦ rw yes' f
  | inr no' ↦ rw no' f
]

grown-Fits :
    (last current : MemoryDescriptor)
    → Merges last current
    → Fits current
    → Fits (grown last current)
grown-Fits last current m f = omega (arith, m.touches, m.count)

-- A grown descriptor holds what the two held.
grown-Holds :
    (last current : MemoryDescriptor) (address ty att : ℕ)
    → Merges last current
    → Holds address ty att (grown last current)
      ↔ Holds address ty att last ⊎ Holds address ty att current
grown-Holds last current address ty att m = (
  λ (ge, lt, t, a). elim (dec_lt address current.phys_start) [
    | yes low ↦ inl (ge, omega (arith, m.touches), t, a)
    | no high ↦
        inr (omega arith, omega (arith, m.touches, m.count), sym m.same_ty ∙ t, sym m.same_att ∙ a)
  ],
  λ h. elim h [
    | inl (ge, lt, t, a) ↦ (ge, omega (arith, m.count), t, a)
    | inr (ge, lt, t, a) ↦
        (omega (arith, m.touches), omega (arith, m.touches, m.count), m.same_ty ∙ t, m.same_att ∙ a)
  ],
)

write_from-Described :
    (u : Uefi) (last : MemoryDescriptor) (entries : List MemoryDescriptor) (address ty att : ℕ)
    → Fits last
    → AllFit entries
    → Described address ty att (write_from u single last entries)
      ↔ Holds address ty att last ⊎ Described address ty att (map (processed u) entries)
unfolding write_from
write_from-Described u last [] address ty att f fs = (λ h. h, λ h. h)
write_from-Described u last (d ∷ entries) address ty att f (g, fs) =
    let current = processed u d in
    let g' = processed-Fits u d g in
    elim (Bool-cases (can_merge last current)) [
      | inr apart ↦
          let (to, from) = write_from-Described u current entries address ty att g' fs in
          rw apart (
            λ h. elim h [ inl x ↦ inl x | inr x ↦ inr (to x) ],
            λ h. elim h [ inl x ↦ inl x | inr x ↦ inr (from x) ],
          )
      | inl merge ↦
          let m = can_merge-Merges last current f g' merge in
          let (to, from) =
            write_from-Described u (grown last current) entries address ty att
              (grown-Fits last current m g') fs in
          let (apart, whole) = grown-Holds last current address ty att m in
          rw merge (
            λ h. elim (to h) [
              | inr x ↦ inr (inr x)
              | inl x ↦ elim (apart x) [ inl y ↦ inl y | inr y ↦ inr (inl y) ]
            ],
            λ h. elim h [
              | inl x ↦ from (inl (whole (inl x)))
              | inr (inl x) ↦ from (inl (whole (inr x)))
              | inr (inr x) ↦ from (inr x)
            ],
          )
    ]

-- Merging loses and adds nothing: an address has a type and attributes in the merged map exactly when
-- it has them in the map that `processed` makes of each entry, for entries that end below 2 ^ 64.
pub write_all-Described :
    (u : Uefi) (entries : List MemoryDescriptor) (address ty att : ℕ)
    → AllFit entries
    → Described address ty att (write_all u single entries)
      ↔ Described address ty att (map (processed u) entries)
unfolding write_all
write_all-Described u [] address ty att fs = (λ h. h, λ h. h)
write_all-Described u (d ∷ entries) address ty att (f, fs) =
    write_from-Described u (processed u d) entries address ty att (processed-Fits u d f) fs
