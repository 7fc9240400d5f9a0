-- ===== src/Mmap/Room.antt =====
-- kernel/src/earlyinit/mem.rs: the map that `clone_and_process_mmap` writes, and its own pages.
use mars.Prelude.{
  ℕ, subst, ◌+◌, ◌-◌, ◌*◌, ◌/◌, ◌%◌, ◌^◌, ◌≤◌, ◌<◌, ◌≡◌, ◌↔◌, ◌⊎◌, inl, inr, ◌&&◌, List, [], ◌∷◌,
  ◌++◌, arith, dec_lt, ltb, leb, if◌then◌else◌, Bool-cases,
}
use mars.Mmap.{Uefi, MemoryDescriptor, can_merge, grown, processed, punch, write_from, end_address}
use mars.Mmap.Cover.{Holds, Described, Fits, single}

-- The pages of the new map.
abbrev pub InMap : ℕ → ℕ → ℕ → Type 0
InMap dest pages address = (dest ≤ address) × (address < dest + pages * 4096)

-- A descriptor begins where the new map does, or has none of the map's addresses.
pub record Placed (dest pages : ℕ) (d : MemoryDescriptor) : Type 0 where
  pub fits : Fits d
  pub place :
      (d.phys_start ≡ dest)
      ⊎ ((d.phys_start + d.page_count * 4096 ≤ dest) ⊎ (dest + pages * 4096 ≤ d.phys_start))

abbrev pub AllPlaced : ℕ → ℕ → List MemoryDescriptor → Type 0
AllPlaced dest pages [] = Unit
AllPlaced dest pages (d ∷ ds) = Placed dest pages d × AllPlaced dest pages ds

punch-Described :
    (dest pages : ℕ) (d : MemoryDescriptor) (address ty att : ℕ)
    → 0 < pages
    → Placed dest pages d
    → Described address ty att (punch dest pages d)
      ↔ Holds address ty att d × ¬ InMap dest pages address
unfolding punch
punch-Described dest pages d address ty att some_pages p =
    let total = (dest - d.phys_start) / 4096 + pages in
    elim (Bool-cases (leb d.phys_start dest && ltb dest (end_address d))) [
      | inr elsewhere ↦
          let fits = p.fits in
          let place = p.place in
          rw elsewhere (
            λ h. elim h [
              | inr n ↦ absurd n
              | inl (ge, lt, t, a) ↦ (
                (ge, lt, t, a),
                λ (ge', lt'). absurd (ground (arith, place, elsewhere, ge, lt, ge', lt', fits)),
              )
            ],
            λ (h, out). inl h,
          )
      | inl here ↦
          let fits = p.fits in
          let starts : d.phys_start ≡ dest = ground (arith, p.place, here, fits, some_pages) in
          let same : total ≡ pages = omega (arith, starts) in
          elim (Bool-cases (ltb total d.page_count)) [
            | inl more ↦
                let lt_count : total < d.page_count = ground (arith, more) in
                let start : (d.phys_start + total * 4096) % 2 ^ 64 ≡ dest + pages * 4096 =
                  omega (arith, starts, same, fits, lt_count) in
                rw (here, more)
                  (
                    λ h. elim h [
                      | inr n ↦ absurd n
                      | inl (ge, lt, t, a) ↦ (
                        (
                          omega (arith, ge, start, starts),
                          omega (arith, lt, start, starts, same, lt_count),
                          t,
                          a,
                        ),
                        λ (_, lt'). absurd (omega (arith, ge, start, lt')),
                      )
                    ],
                    λ ((ge, lt, t, a), out). inl (
                      elim (dec_lt address (dest + pages * 4096)) [
                        | yes low ↦ absurd (out (omega (arith, ge, starts), low))
                        | no high ↦ omega (arith, start)
                      ],
                      omega (arith, lt, start, starts, same, lt_count),
                      t,
                      a,
                    ),
                  )
            | inr all ↦
                let le : d.page_count ≤ total = ground (arith, all) in
                rw (here, all)
                  (
                    λ n. absurd n,
                    λ ((ge, lt, t, a), out).
                        out (omega (arith, ge, starts), omega (arith, lt, le, same, starts)),
                  )
          ]
    ]

Described-append :
    (address ty att : ℕ) (ds es : List MemoryDescriptor)
    → Described address ty att (ds ++ es)
      ↔ Described address ty att ds ⊎ Described address ty att es
Described-append address ty att [] es = (λ h. inr h, λ h. elim h [ inl n ↦ absurd n | inr x ↦ x ])
Described-append address ty att (d ∷ ds) es =
    let (to, from) = Described-append address ty att ds es in
    (
      λ h. elim h [
        | inl x ↦ inl (inl x)
        | inr x ↦ elim (to x) [ inl y ↦ inl (inr y) | inr y ↦ inr y ]
      ],
      λ h. elim h [
        | inl (inl x) ↦ inl x
        | inl (inr x) ↦ inr (from (inl x))
        | inr x ↦ inr (from (inr x))
      ],
    )

-- The loop writes what `punch` makes of each merged descriptor.
pub write_from-punch :
    (u : Uefi) (dest pages : ℕ) (last : MemoryDescriptor) (entries : List MemoryDescriptor)
    (address ty att : ℕ)
    → 0 < pages
    → AllPlaced dest pages (write_from u single last entries)
    → Described address ty att (write_from u (punch dest pages) last entries)
      ↔ Described address ty att (write_from u single last entries) × ¬ InMap dest pages address
unfolding write_from
write_from-punch u dest pages last [] address ty att some_pages (p, _) =
    let (to, from) = punch-Described dest pages last address ty att some_pages p in
    (
      λ h. let (x, out) = to h in (inl x, out),
      λ (h, out). elim h [ inl x ↦ from (x, out) | inr n ↦ absurd n ],
    )
write_from-punch u dest pages last (d ∷ entries) address ty att some_pages ps =
    let current = processed u d in
    elim (Bool-cases (can_merge last current)) [
      | inl merge ↦
          let ps' =
            subst
              (λ b. AllPlaced dest pages (
                if b
                then write_from u single (grown last current) entries
                else (last ∷ write_from u single current entries)))
              merge ps in
          rw merge (
            write_from-punch u dest pages (grown last current) entries address ty att some_pages
              ps')
      | inr apart ↦
          let ps' : AllPlaced dest pages (last ∷ write_from u single current entries) =
            subst
              (λ b. AllPlaced dest pages (
                if b
                then write_from u single (grown last current) entries
                else (last ∷ write_from u single current entries)))
              apart ps in
          let (to, from) = punch-Described dest pages last address ty att some_pages ps'.0 in
          let (to', from') =
            write_from-punch u dest pages current entries address ty att some_pages ps'.1 in
          let (parts, whole) =
            Described-append address ty att (punch dest pages last)
              (write_from u (punch dest pages) current entries) in
          rw apart (
            λ h. elim (parts h) [
              | inl x ↦ let (y, out) = to x in (inl y, out)
              | inr x ↦ let (y, out) = to' x in (inr y, out)
            ],
            λ (h, out). elim h [
              | inl x ↦ whole (inl (from (x, out)))
              | inr x ↦ whole (inr (from' (x, out)))
            ],
          )
    ]
