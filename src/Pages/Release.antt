-- ===== src/Pages/Release.antt =====
-- klib/src/pm/page/mod.rs: `free_pages` in the zone of the address.
use mars.Prelude.{
  ℕ, ◌+◌, ◌-◌, ◌*◌, ◌/◌, ◌%◌, ◌^◌, ◌≡◌, refl, ap, inl, inr, true, false, some, arith, ◌==◌, ◌||◌,
  leb,
}
use mars.Pages.Memory.{Zone, PageAllocator, page_address, is_free_byte, FreeBlock}
use mars.Pages.Buddy.{free_block_in_zone, free_in_zone}
use mars.Pages.Invariant.{Apart, value, Inv, FreeHead, FreePtr, Whole}
use mars.Pages.Tiles.{power-positive}
use mars.Pages.Links.{With, tiles-With}
use mars.Pages.Regions.{Span, Nothing, InvOf, Inv-iff}
use mars.Pages.Coalesce.{Coalesced, free_block_in_zone-Coalesced}
use mars.Pages.Merge.{Given, free_block_in_zone-Given}

-- A block that has been handed out.
abbrev pub HandedOut : (ℕ → Type 0) → ℕ → ℕ → ℕ → PageAllocator → Type 0
HandedOut IsZone o z k a = Whole a.zones IsZone Nothing a.metadata o z k o

module _ {zones : ℕ → Zone} {IsZone : ℕ → Type 0} {m : ℕ → ℕ} {P : ℕ → ℕ → Type 0} (o z k : ℕ)
    (block : Whole zones IsZone P m o z k o) where
  -- Free blocks are no part of it.
  FreeHead-beside :
      (o' z' j : ℕ)
      → FreeHead zones IsZone P m o' z' j
      → FreeHead zones IsZone (With P z k o) m o' z' j
  FreeHead-beside o' z' j f = record {
    page = f.page;
    settled = λ q. elim q [
      | inl p ↦ f.settled p
      | inr (s, w) ↦ absurd (
          omega (
            arith,
            f.marked,
            (block.pages j w).0,
            block.small,
            ap (λ y. value zones IsZone m y j) s,
          ))
    ];
    marked = f.marked;
    aligned = f.aligned;
  }

  FreePtr-beside :
      (o' b : ℕ) → FreePtr zones IsZone P m o' b → FreePtr zones IsZone (With P z k o) m o' b
  FreePtr-beside o' b f = record {
    z = f.z;
    k = f.k;
    head = FreeHead-beside o' f.z f.k f.head;
    address = f.address;
  }

  set-aside :
      {area : ℕ → ℕ} {blocks : ℕ → FreeBlock}
      → Inv zones IsZone P m area blocks
      → Inv zones IsZone (With P z k o) m area blocks
  set-aside {area} {blocks} inv = record {
    tiles = tiles-With o z k o inv.tiles block;
    links = λ o' z' j f.
        let before : FreeHead zones IsZone P m o' z' j = record {
          page = f.page;
          settled = λ p. f.settled (inl p);
          marked = f.marked;
          aligned = f.aligned;
        } in
        let l = inv.links o' z' j before in
        record {
          zone_at = l.zone_at;
          index_at = l.index_at;
          first = l.first;
          before = λ ne. (FreePtr-beside o' _ (l.before ne).0, (l.before ne).1);
          after = λ ne. (FreePtr-beside o' _ (l.after ne).0, (l.after ne).1);
        };
    heads = λ o' ne. (FreePtr-beside o' _ (inv.heads o' ne).0, (inv.heads o' ne).1);
    ranked = inv.ranked;
  }

-- The pages of a block that has been handed out go back, whatever the count of allocated pages.
release :
    {IsZone : ℕ → Type 0} (o z k n : ℕ) (a : PageAllocator)
    → Apart a.zones IsZone
    → InvOf IsZone Nothing a
    → HandedOut IsZone o z k a
    → Given IsZone z k o a (free_block_in_zone (10 - o) z k o (record a { allocated_pages = n }))
release {IsZone} o z k n a apart inv block =
    let aside : InvOf IsZone (Span z k (k + 2 ^ o)) a =
      Inv-iff (λ y j p. elim p [ inl x ↦ absurd x | inr b ↦ b ]) (λ y j b. inr b)
        (set-aside o z k block inv) in
    let g =
      free_block_in_zone-Given (10 - o) z k o (record a { allocated_pages = n }) apart aside
        block.zone_ok (omega (arith, block.small)) block.aligned block.inside in
    record { inv = g.inv; same_zones = g.same_zones; same_head = g.same_head; freed = g.freed }

-- The count of allocated pages after a block of order `o` is freed.
abbrev pub uncounted : ℕ → PageAllocator → PageAllocator
uncounted o a = record a { allocated_pages = (a.allocated_pages + 2 ^ 64 - 2 ^ o) % 2 ^ 64 }

pub free_in_zone-Given :
    {IsZone : ℕ → Type 0} (o z k : ℕ) (a : PageAllocator)
    → Apart a.zones IsZone
    → InvOf IsZone Nothing a
    → HandedOut IsZone o z k a
    → (a' : PageAllocator) × (free_in_zone z (page_address a.zones z k) a ≡ some a')
      × Given IsZone z k o a a'
      × Coalesced a.zones a'.metadata z k o
unfolding free_in_zone
free_in_zone-Given {IsZone} o z k a apart inv block =
    let base = (a.zones z).data_base in
    let off : base + k * 16384 - base ≡ k * 16384 = omega arith in
    let index : k * 16384 / 16384 ≡ k = omega arith in
    let byte = (block.pages k (omega arith, omega (arith, power-positive o))).0 in
    let order : o % 128 ≡ o = omega (arith, block.small) in
    let even : (k * 16384 % 16384 == 0) ≡ true = ground arith in
    let used : (is_free_byte o || leb 11 o) ≡ false = ground (arith, block.small) in
    (
      free_block_in_zone (10 - o) z k o (uncounted o a),
      rw (off, index, byte, order, even, used) refl,
      release o z k ((a.allocated_pages + 2 ^ 64 - 2 ^ o) % 2 ^ 64) a apart inv block,
      free_block_in_zone-Coalesced (10 - o) z k o (uncounted o a) (omega (arith, block.small))
          block.aligned,
    )
