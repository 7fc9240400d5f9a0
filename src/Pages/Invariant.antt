-- ===== src/Pages/Invariant.antt =====
-- klib/src/pm/page/mod.rs: what holds of the metadata, the lists and the blocks of a page allocator.
use mars.Prelude.{ℕ, ◌+◌, ◌*◌, ◌^◌, ◌≤◌, ◌<◌, ◌≡◌, ◌≢◌, ◌⊎◌}
use mars.Pages.Memory.{Zone, FreeBlock, page_address, free_byte}

-- `k` is a multiple of the block size.
abbrev pub Aligned : ℕ → ℕ → Type 0
Aligned o k = (c : ℕ) × (k ≡ c * 2 ^ o)

-- The pages of a block of order `o` at page `k`.
abbrev pub Within : ℕ → ℕ → ℕ → Type 0
Within o k j = (k ≤ j) × (j < k + 2 ^ o)

abbrev pub InBlock : ℕ → ℕ → ℕ → ℕ → ℕ → Type 0
InBlock z k o z' j = (z' ≡ z) × Within o k j

-- No list runs in a ring: the block before another one has a smaller rank.
abbrev pub Ranked : (ℕ → FreeBlock) → Type 0
Ranked blocks =
    (rank : ℕ → ℕ) × ((b : ℕ) → b ≢ 0 → (blocks b).prev ≢ 0 → rank (blocks b).prev < rank b)

-- The zones are fixed, and `IsZone` tells which pointers are zones of the allocator.
module _ (zones : ℕ → Zone) (IsZone : ℕ → Type 0) where
  abbrev pub Page : ℕ → ℕ → Type 0
  Page z k = IsZone z × (k < (zones z).total_pages)

  -- No two pages share an address or a byte of metadata, and none is at the null pointer.
  pub record Apart : Type 0 where
    pub metas :
        (z z' k k' : ℕ)
        → Page z k
        → Page z' k'
        → (zones z).meta_array + k ≡ (zones z').meta_array + k'
        → (z ≡ z') × (k ≡ k')
    pub addresses :
        (z z' k k' : ℕ)
        → Page z k
        → Page z' k'
        → page_address zones z k ≡ page_address zones z' k'
        → (z ≡ z') × (k ≡ k')
    pub not_null : (z k : ℕ) → Page z k → page_address zones z k ≢ 0

  -- The byte of a page.
  abbrev pub value : (ℕ → ℕ) → ℕ → ℕ → ℕ
  value m z k = m ((zones z).meta_array + k)

  -- `P` is of the pages that an operation is working on, and that belong to no block for now.
  module _ (P : ℕ → ℕ → Type 0) (m : ℕ → ℕ) where
    -- A block of order `o`, whose pages have all the byte `v`.
    pub record Whole (o z k v : ℕ) : Type 0 where
      pub zone_ok : IsZone z
      pub small : o < 11
      pub aligned : Aligned o k
      pub inside : k + 2 ^ o ≤ (zones z).total_pages
      pub kind : (v ≡ o) ⊎ (v ≡ free_byte o)
      pub pages : (j : ℕ) → Within o k j → (value m z j ≡ v) × ¬ P z j

    -- The block that a page belongs to.
    pub record Tile (z k : ℕ) : Type 0 where
      pub order : ℕ
      pub head : ℕ
      pub here : Within order head k
      pub whole : Whole order z head (value m z k)

    -- A page at which a free block begins.
    pub record FreeHead (o z k : ℕ) : Type 0 where
      pub page : Page z k
      pub settled : ¬ P z k
      pub marked : value m z k ≡ free_byte o
      pub aligned : Aligned o k

    pub record FreePtr (o b : ℕ) : Type 0 where
      pub z : ℕ
      pub k : ℕ
      pub head : FreeHead o z k
      pub address : b ≡ page_address zones z k

    module _ (area : ℕ → ℕ) (blocks : ℕ → FreeBlock) where
      -- The header of a free block, and its neighbours in the list.
      pub record Linked (o z k b : ℕ) : Type 0 where
        pub zone_at : (blocks b).zone ≡ z
        pub index_at : (blocks b).page_index ≡ k
        pub first : (blocks b).prev ≡ 0 → area o ≡ b
        pub before :
            (blocks b).prev ≢ 0 → FreePtr o (blocks b).prev × ((blocks (blocks b).prev).next ≡ b)
        pub after :
            (blocks b).next ≢ 0 → FreePtr o (blocks b).next × ((blocks (blocks b).next).prev ≡ b)

      pub record Inv : Type 0 where
        pub tiles : (z k : ℕ) → Page z k → ¬ P z k → Tile z k
        pub links : (o z k : ℕ) → FreeHead o z k → Linked o z k (page_address zones z k)
        pub heads : (o : ℕ) → area o ≢ 0 → FreePtr o (area o) × ((blocks (area o)).prev ≡ 0)
        pub ranked : Ranked blocks
