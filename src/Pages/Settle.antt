-- ===== src/Pages/Settle.antt =====
-- klib/src/pm/page/mod.rs: pages that belong to no block become a block.
use mars.Prelude.{ℕ, subst, ◌+◌, ◌^◌, ◌≤◌, ◌<◌, ◌≡◌, refl, sym, ◌∙◌, ◌⊎◌, arith, ℕ_discrete}
use mars.Pages.Memory.{Zone, FreeBlock, free_byte}
use mars.Pages.Invariant.{Aligned, Within, InBlock, Page, value, Tile, FreeHead, FreePtr, Inv}
use mars.Pages.Tiles.{dec_Within}

-- `Q` is `P` without the pages of a block, all of which were in `P`.
pub record Without (P Q : ℕ → ℕ → Type 0) (z k o : ℕ) : Type 0 where
  pub sub : (z' j : ℕ) → Q z' j → P z' j
  pub rest : (z' j : ℕ) → P z' j → ¬ InBlock z k o z' j → Q z' j
  pub out : (z' j : ℕ) → InBlock z k o z' j → ¬ Q z' j
  pub was : (j : ℕ) → Within o k j → P z j

pub dec_InBlock : (z k o z' j : ℕ) → Dec (InBlock z k o z' j)
dec_InBlock z k o z' j = elim (ℕ_discrete z' z) [
  | no ne ↦ no λ b. ne b.0
  | yes same ↦ elim (dec_Within o k j) [ yes w ↦ yes (same, w) | no out ↦ no λ b. out b.1 ]
]

module _ (zones : ℕ → Zone) (IsZone : ℕ → Type 0) where
  -- The bytes of a block have become `v`.
  pub record Marked (m m' : ℕ → ℕ) (z k o v : ℕ) : Type 0 where
    pub inside : (j : ℕ) → Within o k j → value zones IsZone m' z j ≡ v
    pub outside :
        (z' j : ℕ)
        → Page zones IsZone z' j
        → ¬ InBlock z k o z' j
        → value zones IsZone m' z' j ≡ value zones IsZone m z' j

  pub record Block (z k o v : ℕ) : Type 0 where
    pub zone_ok : IsZone z
    pub small : o < 11
    pub aligned : Aligned o k
    pub fits : k + 2 ^ o ≤ (zones z).total_pages
    pub kind : (v ≡ o) ⊎ (v ≡ free_byte o)

module _ {zones : ℕ → Zone} {IsZone : ℕ → Type 0} {P Q : ℕ → ℕ → Type 0} {m m' : ℕ → ℕ}
    {z k o v : ℕ} (without : Without P Q z k o) (marked : Marked zones IsZone m m' z k o v)
    (block : Block zones IsZone z k o v) where
  pub tiles-settle :
      ((z' j : ℕ) → Page zones IsZone z' j → ¬ P z' j → Tile zones IsZone P m z' j)
      → (z' j : ℕ) → Page zones IsZone z' j
      → ¬ Q z' j
      → Tile zones IsZone Q m' z' j
  tiles-settle tiles z' j page nq = elim (dec_InBlock z k o z' j) [
    | yes (same, w) ↦
        subst (λ y. Tile zones IsZone Q m' y j) (sym same)
          (record {
            order = o;
            head = k;
            here = w;
            whole = record {
              zone_ok = block.zone_ok;
              small = block.small;
              aligned = block.aligned;
              inside = block.fits;
              kind = subst (λ x. (x ≡ o) ⊎ (x ≡ free_byte o)) (sym (marked.inside j w)) block.kind;
              pages =
                  λ i x. (marked.inside i x ∙ sym (marked.inside j w), without.out z i (refl, x));
            };
          })
    | no out ↦
        let tile = tiles z' j page (λ p. nq (without.rest z' j p out)) in
        let same = marked.outside z' j page out in
        record {
          order = tile.order;
          head = tile.head;
          here = tile.here;
          whole = record {
            zone_ok = tile.whole.zone_ok;
            small = tile.whole.small;
            aligned = tile.whole.aligned;
            inside = tile.whole.inside;
            kind =
                subst (λ x. (x ≡ tile.order) ⊎ (x ≡ free_byte tile.order)) (sym same)
                  tile.whole.kind;
            pages = λ i w.
                let (byte, not_p) = tile.whole.pages i w in
                let page_i : Page zones IsZone z' i =
                  (tile.whole.zone_ok, omega (arith, w.1, tile.whole.inside)) in
                (
                  marked.outside z' i page_i
                        (λ x. not_p (subst (λ y. P y i) (sym x.0) (without.was i x.1)))
                      ∙ byte
                      ∙ sym same,
                  λ q. not_p (without.sub z' i q),
                );
          };
        }
  ]

  not-InBlock : (z' j : ℕ) → ¬ P z' j → ¬ InBlock z k o z' j
  not-InBlock z' j not_p x = not_p (subst (λ y. P y j) (sym x.0) (without.was j x.1))

  FreeHead-settle :
      (o' z' j : ℕ) → FreeHead zones IsZone P m o' z' j → FreeHead zones IsZone Q m' o' z' j
  FreeHead-settle o' z' j f = record {
    page = f.page;
    settled = λ q. f.settled (without.sub z' j q);
    marked = marked.outside z' j f.page (not-InBlock z' j f.settled) ∙ f.marked;
    aligned = f.aligned;
  }

  pub FreePtr-settle : (o' x : ℕ) → FreePtr zones IsZone P m o' x → FreePtr zones IsZone Q m' o' x
  FreePtr-settle o' x f = record {
    z = f.z;
    k = f.k;
    head = FreeHead-settle o' f.z f.k f.head;
    address = f.address;
  }

  -- Free blocks outside the new block were there before.
  pub FreeHead-before :
      (o' z' j : ℕ)
      → FreeHead zones IsZone Q m' o' z' j
      → ¬ InBlock z k o z' j
      → FreeHead zones IsZone P m o' z' j
  FreeHead-before o' z' j f out = record {
    page = f.page;
    settled = λ p. f.settled (without.rest z' j p out);
    marked = sym (marked.outside z' j f.page out) ∙ f.marked;
    aligned = f.aligned;
  }

  -- An allocated block leaves the lists as they are.
  pub alloc-Inv :
      v ≡ o
      → {area : ℕ → ℕ} {blocks : ℕ → FreeBlock} → Inv zones IsZone P m area blocks
      → Inv zones IsZone Q m' area blocks
  alloc-Inv used inv = record {
    tiles = tiles-settle inv.tiles;
    links = λ o' z' j f. elim (dec_InBlock z k o z' j) [
      | yes (same, w) ↦
          let byte : value zones IsZone m' z j ≡ free_byte o' =
            subst (λ y. value zones IsZone m' y j ≡ free_byte o') same f.marked in
          absurd (omega (arith, byte, marked.inside j w, used, block.small))
      | no out ↦
          let l = inv.links o' z' j (FreeHead-before o' z' j f out) in
          record {
            zone_at = l.zone_at;
            index_at = l.index_at;
            first = l.first;
            before = λ ne. (FreePtr-settle o' _ (l.before ne).0, (l.before ne).1);
            after = λ ne. (FreePtr-settle o' _ (l.after ne).0, (l.after ne).1);
          }
    ];
    heads = λ o' ne. (FreePtr-settle o' _ (inv.heads o' ne).0, (inv.heads o' ne).1);
    ranked = inv.ranked;
  }
