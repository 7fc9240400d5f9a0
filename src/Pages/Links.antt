-- ===== src/Pages/Links.antt =====
-- klib/src/pm/page/mod.rs: a block is taken out of its list, and its pages belong to no block.
use mars.Prelude.{ℕ, subst, ◌≡◌, sym, ap₂, ◌∙◌, ◌≢◌, ◌⊎◌, inl, inr}
use mars.Pages.Memory.{Zone, FreeBlock, page_address, free_byte}
use mars.Pages.Invariant.{Within, InBlock, Page, Apart, Whole, Tile, FreeHead, FreePtr}
use mars.Pages.Tiles.{Whole-same, FreeHead-Whole, Within-start}

-- The pages of a block, besides those that an operation is working on.
abbrev pub With : (ℕ → ℕ → Type 0) → ℕ → ℕ → ℕ → ℕ → ℕ → Type 0
With P z k o z' j = P z' j ⊎ InBlock z k o z' j

-- The lists without block `b` of order `o`.
pub record Unlinked (area area' : ℕ → ℕ) (blocks blocks' : ℕ → FreeBlock) (o b : ℕ) : Type 0 where
  pub zone_at : (x : ℕ) → (blocks' x).zone ≡ (blocks x).zone
  pub index_at : (x : ℕ) → (blocks' x).page_index ≡ (blocks x).page_index
  pub next_before :
      (x : ℕ) → (blocks b).prev ≢ 0 → x ≡ (blocks b).prev → (blocks' x).next ≡ (blocks b).next
  pub next_other : (x : ℕ) → x ≢ (blocks b).prev → (blocks' x).next ≡ (blocks x).next
  pub prev_after :
      (x : ℕ) → (blocks b).next ≢ 0 → x ≡ (blocks b).next → (blocks' x).prev ≡ (blocks b).prev
  pub prev_other : (x : ℕ) → x ≢ (blocks b).next → (blocks' x).prev ≡ (blocks x).prev
  pub area_head : (blocks b).prev ≡ 0 → area' o ≡ (blocks b).next
  pub area_inner : (blocks b).prev ≢ 0 → area' o ≡ area o
  pub area_other : (o' : ℕ) → o' ≢ o → area' o' ≡ area o'

module _ {zones : ℕ → Zone} {IsZone : ℕ → Type 0} {P : ℕ → ℕ → Type 0} {m : ℕ → ℕ} where
  -- The other blocks are whole beside it.
  pub tiles-With :
      (o z k v : ℕ)
      → ((z' j : ℕ) → Page zones IsZone z' j → ¬ P z' j → Tile zones IsZone P m z' j)
      → Whole zones IsZone P m o z k v
      → (z' j : ℕ) → Page zones IsZone z' j
      → ¬ With P z k o z' j
      → Tile zones IsZone (With P z k o) m z' j
  tiles-With o z k v tiles block z' j page out =
      let tile = tiles z' j page (λ p. out (inl p)) in
      record {
        order = tile.order;
        head = tile.head;
        here = tile.here;
        whole = record {
          zone_ok = tile.whole.zone_ok;
          small = tile.whole.small;
          aligned = tile.whole.aligned;
          inside = tile.whole.inside;
          kind = tile.whole.kind;
          pages = λ i w. (
            (tile.whole.pages i w).0,
            λ q. elim q [
              | inl p ↦ (tile.whole.pages i w).1 p
              | inr (same_zone, x) ↦
                  let block' = subst (λ y. Whole zones IsZone P m o y k v) (sym same_zone) block in
                  let (orders, heads, _) =
                    Whole-same o tile.order z' k tile.head v _ i block' tile.whole x w in
                  out (
                    inr (
                      same_zone,
                      subst (λ h. Within o h j) (sym heads)
                          (subst (λ p. Within p tile.head j) (sym orders) tile.here),
                    ))
            ],
          );
        };
      }

  -- A free block that is not the one taken out stays.
  pub FreePtr-With :
      (o z k o' b : ℕ)
      → Apart zones IsZone
      → FreeHead zones IsZone P m o z k
      → Whole zones IsZone P m o z k (free_byte o)
      → FreePtr zones IsZone P m o' b
      → b ≢ page_address zones z k
      → ((z' j : ℕ) → Page zones IsZone z' j → ¬ P z' j → Tile zones IsZone P m z' j)
      → FreePtr zones IsZone (With P z k o) m o' b
  FreePtr-With o z k o' b apart free block f ne tiles = record {
    z = f.z;
    k = f.k;
    head = record {
      page = f.head.page;
      settled = λ q. elim q [
        | inl p ↦ f.head.settled p
        | inr (same_zone, w) ↦
            let block' =
              subst (λ y. Whole zones IsZone P m o y k (free_byte o)) (sym same_zone) block in
            let whole =
              FreeHead-Whole o' f.z f.k f.head (tiles f.z f.k f.head.page f.head.settled) in
            let (_, heads, _) =
              Whole-same o o' f.z k f.k _ _ f.k block' whole w (Within-start o' f.k) in
            ne (f.address ∙ ap₂ (λ y i. page_address zones y i) same_zone (sym heads))
      ];
      marked = f.head.marked;
      aligned = f.head.aligned;
    };
    address = f.address;
  }
