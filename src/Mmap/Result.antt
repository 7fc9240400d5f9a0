-- ===== src/Mmap/Result.antt =====
-- kernel/src/earlyinit/mem.rs: what `clone_and_process_mmap` returns.
use mars.Prelude.{
  ℕ, subst, ◌+◌, ◌*◌, ◌^◌, ◌≤◌, ◌<◌, ◌≡◌, refl, sym, ap, ◌∙◌, ◌↔◌, inl, inr, none, some, List, [],
  ◌∷◌, map, arith, Bool-cases, Option-cases, length,
}
use mars.Prelude.{length-append}
use mars.Vm.{align_up}
use mars.Mmap.{
  Uefi, MemoryDescriptor, can_merge, grown, processed, punch, write_from, write_all, count_from,
  final_count, first_normal, kept, clone_and_process_mmap, map_pages, relocated,
}
use mars.Mmap.Cover.{Described, AllFit, single, write_all-Described}
use mars.Mmap.Room.{InMap, AllPlaced, write_from-punch}

punch-length : (dest pages : ℕ) (d : MemoryDescriptor) → length (punch dest pages d) ≤ 1
unfolding punch
punch-length dest pages d = ground arith

-- No more descriptors are written than the first loop has counted.
write_from-length :
    (u : Uefi) (write : MemoryDescriptor → List MemoryDescriptor) (last : MemoryDescriptor)
    (entries : List MemoryDescriptor)
    → ((d : MemoryDescriptor) → length (write d) ≤ 1)
    → length (write_from u write last entries) ≤ count_from u last entries
unfolding write_from count_from
write_from-length u write last [] one = one last
write_from-length u write last (d ∷ entries) one =
    let current = processed u d in
    elim (Bool-cases (can_merge last current)) [
      | inl merge ↦ rw merge (write_from-length u write (grown last current) entries one)
      | inr apart ↦
          rw (apart, length-append)
            (omega (arith, one last, write_from-length u write current entries one))
    ]

count_from-positive :
    (u : Uefi) (last : MemoryDescriptor) (entries : List MemoryDescriptor)
    → 0 < count_from u last entries
unfolding count_from
count_from-positive u last [] = omega arith
count_from-positive u last (d ∷ entries) =
    let current = processed u d in
    elim (Bool-cases (can_merge last current)) [
      | inl merge ↦ rw merge (count_from-positive u (grown last current) entries)
      | inr apart ↦ rw apart (omega (arith, count_from-positive u current entries))
    ]

-- The pages of the new map hold its descriptors, and there is one at least.
map_pages-enough :
    (size count : ℕ)
    → 0 < count * size
    → count * size + 4096 < 2 ^ 64
    → (0 < map_pages size count) × (count * size ≤ map_pages size count * 4096)
unfolding align_up
map_pages-enough size count pos fits = (omega arith, omega arith)

product-positive : (a b : ℕ) → 0 < a → 0 < b → 0 < a * b
product-positive a b h k = grind arith

product_mono : (a b c : ℕ) → a ≤ b → a * c ≤ b * c
product_mono a b c le = grind arith

-- What the result of `clone_and_process_mmap` has.
pub record IsNewMap (u : Uefi) (desc_size : ℕ) (entries : List MemoryDescriptor) (dest : ℕ)
    (written : List MemoryDescriptor) : Type 0 where
  pub described :
      (address ty att : ℕ)
      → Described address ty att written
        ↔ Described address ty att (map (processed u) entries)
          × ¬ InMap dest (map_pages desc_size (final_count u entries)) address
  pub fits : length written * desc_size ≤ map_pages desc_size (final_count u entries) * 4096

new_map :
    (u : Uefi) (desc_size dest : ℕ) (d : MemoryDescriptor) (entries : List MemoryDescriptor)
    → let pages = map_pages desc_size (final_count u (d ∷ entries)) in
      0 < desc_size
      → final_count u (d ∷ entries) * desc_size + 4096 < 2 ^ 64
      → AllFit (d ∷ entries)
      → AllPlaced dest pages (write_all u single (d ∷ entries))
      → IsNewMap u desc_size (d ∷ entries) dest (write_all u (punch dest pages) (d ∷ entries))
unfolding final_count write_all
new_map u desc_size dest d entries some_size small fit placed =
    let count = count_from u (processed u d) entries in
    let pages = map_pages desc_size count in
    let (some_pages, enough) =
      map_pages-enough desc_size count
        (product-positive count desc_size (count_from-positive u (processed u d) entries) some_size)
        small in
    let few =
      write_from-length u (punch dest pages) (processed u d) entries (punch-length dest pages) in
    record {
      described = λ address ty att.
          let (to, from) =
            write_from-punch u dest pages (processed u d) entries address ty att some_pages
              placed in
          let (old, new) = write_all-Described u (d ∷ entries) address ty att fit in
          (λ h. let (x, out) = to h in (old x, out), λ (h, out). from (new h, out));
      fits = omega (
        arith,
        enough,
        product_mono (length (write_from u (punch dest pages) (processed u d) entries)) count
            desc_size few,
      );
    }

abbrev written_at : Uefi → ℕ → List MemoryDescriptor → ℕ → List MemoryDescriptor
written_at u desc_size entries dest =
    write_all u (punch dest (map_pages desc_size (final_count u entries))) entries

relocated-written_at :
    (u : Uefi) (desc_size : ℕ) (entries : List MemoryDescriptor) (dest : ℕ)
    (written : List MemoryDescriptor)
    → relocated u desc_size entries ≡ some (dest, written)
    → written_at u desc_size entries dest ≡ written
unfolding relocated
relocated-written_at u desc_size entries dest written e =
    elim (Option-cases (first_normal u entries)) [
      | inl none_normal ↦
          let stuck : relocated u desc_size entries ≡ none = rw (relocated, none_normal) refl in
          absurd (none-some (sym stuck ∙ e))
      | inr (start, found) ↦
          let value : relocated u desc_size entries
              ≡ some (start, written_at u desc_size entries start) =
            rw (relocated, found) refl in
          let same : (start, written_at u desc_size entries start) ≡ (dest, written) =
            some-injective (sym value ∙ e) in
          ap (λ p. written_at u desc_size entries p) (sym (ap (λ r. r.0) same)) ∙ ap (λ r. r.1) same
    ]
  where
    none-some : {x : ℕ × List MemoryDescriptor} → none ≡ some x → ⊥
    none-some e = cc

    some-injective : {x y : ℕ × List MemoryDescriptor} → some x ≡ some y → x ≡ y
    some-injective e = cc

relocated-IsNewMap :
    (u : Uefi) (desc_size : ℕ) (entries : List MemoryDescriptor) (dest : ℕ)
    (written : List MemoryDescriptor)
    → relocated u desc_size entries ≡ some (dest, written)
    → 0 < desc_size
    → final_count u entries * desc_size + 4096 < 2 ^ 64
    → AllFit entries
    → AllPlaced dest (map_pages desc_size (final_count u entries)) (write_all u single entries)
    → IsNewMap u desc_size entries dest written
unfolding relocated first_normal
relocated-IsNewMap u desc_size [] dest written e some_size small fit placed = cc
relocated-IsNewMap u desc_size (d ∷ entries) dest written e some_size small fit placed =
    subst (λ w. IsNewMap u desc_size (d ∷ entries) dest w)
      (relocated-written_at u desc_size (d ∷ entries) dest written e)
      (new_map u desc_size dest d entries some_size small fit placed)

-- The new map describes exactly the memory of the entries that are kept, those that are not loader
-- code, each with the type that `processed` gives it, but for the pages of the new map itself, and it
-- fits into these pages. This is for descriptors that have a size, kept entries that end below 2 ^ 64,
-- a map whose size with a page more is below 2 ^ 64, and when no merged descriptor has addresses of the
-- new map's pages but one that starts there, as when the region chosen has room for the map.
pub clone_and_process_mmap-IsNewMap :
    (u : Uefi) (desc_size : ℕ) (entries : List MemoryDescriptor) (dest : ℕ)
    (written : List MemoryDescriptor)
    → clone_and_process_mmap u desc_size entries ≡ some (dest, written)
    → 0 < desc_size
    → final_count u (kept u entries) * desc_size + 4096 < 2 ^ 64
    → AllFit (kept u entries)
    → AllPlaced dest
        (map_pages desc_size (final_count u (kept u entries)))
        (write_all u single (kept u entries))
    → IsNewMap u desc_size (kept u entries) dest written
unfolding clone_and_process_mmap
clone_and_process_mmap-IsNewMap u desc_size entries dest written e some_size small fit placed =
    relocated-IsNewMap u desc_size (kept u entries) dest written e some_size small fit placed
