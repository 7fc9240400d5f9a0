-- ===== src/Pages/Steps.antt =====
-- klib/src/pm/page/mod.rs: what the steps on lists and metadata change.
use mars.Prelude.{ℕ, zero, suc, ◌+◌, ◌≤◌, ◌<◌, ◌≡◌, refl, ◌≢◌, ◌⊎◌, arith}
use mars.Pages.Memory.{
  FreeBlock, PageAllocator, page_address, fill, unlink_block, pop_block, push_block,
}
use mars.Pages.Links.{Unlinked}

-- The bytes that `fill` changes.
pub fill_inside :
    (count base v : ℕ) (m : ℕ → ℕ) (k : ℕ) → base ≤ k → k < base + count → fill count base v m k ≡ v
unfolding fill
fill_inside zero base v m k le lt = absurd (omega arith)
fill_inside (suc count) base v m k le lt = ground (arith, fill_inside count base v m k)

pub fill_outside :
    (count base v : ℕ) (m : ℕ → ℕ) (k : ℕ)
    → (k < base ⊎ (base + count ≤ k))
    → fill count base v m k ≡ m k
unfolding fill
fill_outside zero base v m k out = refl
fill_outside (suc count) base v m k out = ground (arith, fill_outside count base v m k)

-- `unlink_block` takes the block out.
pub unlink_block-Unlinked :
    (o b : ℕ) (a : PageAllocator)
    → Unlinked a.free_area (unlink_block o b a).free_area a.blocks (unlink_block o b a).blocks o b
unfolding unlink_block
unlink_block-Unlinked o b a = record {
  zone_at = λ x. ground arith;
  index_at = λ x. ground arith;
  next_before = λ x ne e. ground arith;
  next_other = λ x ne. ground arith;
  prev_after = λ x ne e. ground arith;
  prev_other = λ x ne. ground arith;
  area_head = λ e. ground arith;
  area_inner = λ e. ground arith;
  area_other = λ o' ne. ground arith;
}

-- So does `pop_block`, with the head of a list.
pub pop_block-Unlinked :
    (o : ℕ) (a : PageAllocator)
    → (a.blocks (a.free_area o)).prev ≡ 0
    → Unlinked a.free_area
        (pop_block o a).free_area
        a.blocks
        (pop_block o a).blocks
        o
        (a.free_area o)
unfolding pop_block
pop_block-Unlinked o a head = record {
  zone_at = λ x. ground arith;
  index_at = λ x. ground arith;
  next_before = λ x ne e. absurd (ne head);
  next_other = λ x ne. ground arith;
  prev_after = λ x ne e. ground arith;
  prev_other = λ x ne. ground arith;
  area_head = λ e. ground arith;
  area_inner = λ e. absurd (e head);
  area_other = λ o' ne. ground arith;
}

-- The lists with a block `b` of order `o` pushed.
pub record Pushed (area area' : ℕ → ℕ) (blocks blocks' : ℕ → FreeBlock) (o z k b : ℕ) : Type 0 where
  pub zone_at : (blocks' b).zone ≡ z
  pub index_at : (blocks' b).page_index ≡ k
  pub next_at : (blocks' b).next ≡ area o
  pub prev_at : (blocks' b).prev ≡ 0
  pub zone_other : (x : ℕ) → x ≢ b → (blocks' x).zone ≡ (blocks x).zone
  pub index_other : (x : ℕ) → x ≢ b → (blocks' x).page_index ≡ (blocks x).page_index
  pub next_other : (x : ℕ) → x ≢ b → (blocks' x).next ≡ (blocks x).next
  pub prev_head : (x : ℕ) → x ≢ 0 → x ≡ area o → (blocks' x).prev ≡ b
  pub prev_other : (x : ℕ) → x ≢ b → x ≢ area o → (blocks' x).prev ≡ (blocks x).prev
  pub area_at : area' o ≡ b
  pub area_other : (o' : ℕ) → o' ≢ o → area' o' ≡ area o'

pub push_block-Pushed :
    (o z k : ℕ) (a : PageAllocator)
    → a.free_area o ≢ page_address a.zones z k
    → let a' = push_block o z k a in
      Pushed a.free_area a'.free_area a.blocks a'.blocks o z k (page_address a.zones z k)
unfolding push_block
push_block-Pushed o z k a differs = record {
  zone_at = ground arith;
  index_at = ground arith;
  next_at = ground arith;
  prev_at = ground arith;
  zone_other = λ x ne. ground arith;
  index_other = λ x ne. ground arith;
  next_other = λ x ne. ground arith;
  prev_head = λ x ne e. ground arith;
  prev_other = λ x ne nh. ground arith;
  area_at = ground arith;
  area_other = λ o' ne. ground arith;
}
