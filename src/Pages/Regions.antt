-- ===== src/Pages/Regions.antt =====
-- klib/src/pm/page/mod.rs: a span of pages that belong to no block is given back block by block.
use mars.Prelude.{
  ℕ, subst, suc, ◌+◌, ◌-◌, ◌*◌, ◌^◌, ◌≤◌, ◌<◌, ◌≡◌, sym, ◌∙◌, ◌≢◌, inl, inr, arith, dec_lt, dec_le,
}
use native.Mathlib.Numerals.{unary_clauses}
use mars.Pages.Memory.{
  Zone, FreeBlock, PageAllocator, page_address, free_byte, mark, fill, push_block,
}
use mars.Pages.Buddy.{give_block}
use mars.Pages.Invariant.{Page, Apart, FreeHead, FreePtr, Inv}
use mars.Pages.Tiles.{Within-start, power-positive}
use mars.Pages.Steps.{fill_inside, fill_outside, push_block-Pushed}
use mars.Pages.Settle.{Without, Marked, Block}
use mars.Pages.Give.{give-Inv}

abbrev pub Between : ℕ → ℕ → ℕ → Type 0
Between lo hi j = (lo ≤ j) × (j < hi)

-- The pages of zone `z` from `lo` up to `hi`.
abbrev pub Span : ℕ → ℕ → ℕ → ℕ → ℕ → Type 0
Span z lo hi z' j = (z' ≡ z) × Between lo hi j

abbrev pub Nothing : ℕ → ℕ → Type 0
Nothing z j = ⊥

-- The invariant of an allocator, whose zones are those of `IsZone`, with the pages of `P` set aside.
abbrev pub InvOf : (ℕ → Type 0) → (ℕ → ℕ → Type 0) → PageAllocator → Type 0
InvOf IsZone P a = Inv a.zones IsZone P a.metadata a.free_area a.blocks

pub power-suc : (o : ℕ) → 2 ^ suc o ≡ 2 * 2 ^ o
power-suc o = simp unary_clauses (omega arith)

module _ {zones : ℕ → Zone} {IsZone : ℕ → Type 0} (apart : Apart zones IsZone) where
  -- `fill` changes the bytes of a block, and no others.
  pub fill-Marked :
      (m : ℕ → ℕ) (z k o w v : ℕ)
      → Block zones IsZone z k o w
      → Marked zones IsZone m (fill (2 ^ o) ((zones z).meta_array + k) v m) z k o v
  fill-Marked m z k o w v block = record {
    inside =
        λ j x. fill_inside (2 ^ o) ((zones z).meta_array + k) v m _ (omega arith) (omega arith);
    outside = λ z' j page out.
        elim (dec_lt ((zones z').meta_array + j) ((zones z).meta_array + k)) [
          | yes below ↦ fill_outside (2 ^ o) ((zones z).meta_array + k) v m _ (inl below)
          | no ge ↦ elim (dec_le ((zones z).meta_array + k + 2 ^ o) ((zones z').meta_array + j)) [
            | yes above ↦ fill_outside (2 ^ o) ((zones z).meta_array + k) v m _ (inr above)
            | no lt ↦
                let i = (zones z').meta_array + j - (zones z).meta_array in
                let (zs, js) =
                  apart.metas z' z j i page (block.zone_ok, omega (arith, block.fits))
                    (omega arith) in
                absurd (out (zs, omega arith))
          ]
        ];
  }

  -- A list's head is no page that an operation is working on.
  not_listed :
      {P : ℕ → ℕ → Type 0} {m : ℕ → ℕ} {area : ℕ → ℕ} {blocks : ℕ → FreeBlock}
      → Inv zones IsZone P m area blocks
      → (o z k : ℕ) → Page zones IsZone z k
      → P z k
      → area o ≢ page_address zones z k
  not_listed {P} {m} {area} inv o z k page p e =
      let ne : area o ≢ 0 = λ n. apart.not_null z k page (sym e ∙ n) in
      let f = (inv.heads o ne).0 in
      let (zs, ks) = apart.addresses f.z z f.k k f.head.page page (sym f.address ∙ e) in
      f.head.settled (subst (λ y. P y f.k) (sym zs) (subst (λ j. P z j) (sym ks) p))

-- `give_block` gives back a block of the pages set aside.
pub give_block-Inv :
    {IsZone : ℕ → Type 0} {P Q : ℕ → ℕ → Type 0} (o z k : ℕ) (a : PageAllocator)
    → Apart a.zones IsZone
    → InvOf IsZone P a
    → Without P Q z k o
    → Block a.zones IsZone z k o (free_byte o)
    → InvOf IsZone Q (give_block o z k a)
unfolding give_block mark push_block
give_block-Inv {IsZone} o z k a apart inv without block =
    let page : Page a.zones IsZone z k =
      (block.zone_ok, omega (arith, block.fits, power-positive o)) in
    let p = without.was k (Within-start o k) in
    give-Inv apart inv without (fill-Marked apart a.metadata z k o _ (free_byte o) block) block (
      push_block-Pushed o z k (mark z k (2 ^ o) (free_byte o) a)
        (not_listed apart inv o z k page p))

-- Nothing but which pages are set aside.
pub Inv-iff :
    {zones : ℕ → Zone} {IsZone : ℕ → Type 0} {P Q : ℕ → ℕ → Type 0} {m area : ℕ → ℕ}
    {blocks : ℕ → FreeBlock}
    → ((z j : ℕ) → P z j → Q z j)
    → ((z j : ℕ) → Q z j → P z j)
    → Inv zones IsZone P m area blocks
    → Inv zones IsZone Q m area blocks
Inv-iff {zones} {IsZone} {P} {Q} {m} to from inv = record {
  tiles = λ z k page out.
      let t = inv.tiles z k page (λ p. out (to z k p)) in
      record {
        order = t.order;
        head = t.head;
        here = t.here;
        whole = record {
          zone_ok = t.whole.zone_ok;
          small = t.whole.small;
          aligned = t.whole.aligned;
          inside = t.whole.inside;
          kind = t.whole.kind;
          pages = λ j w. ((t.whole.pages j w).0, λ q. (t.whole.pages j w).1 (from z j q));
        };
      };
  links = λ o z k f.
      let l = inv.links o z k (back o z k f) in
      record {
        zone_at = l.zone_at;
        index_at = l.index_at;
        first = l.first;
        before = λ ne. (over o _ (l.before ne).0, (l.before ne).1);
        after = λ ne. (over o _ (l.after ne).0, (l.after ne).1);
      };
  heads = λ o ne. (over o _ (inv.heads o ne).0, (inv.heads o ne).1);
  ranked = inv.ranked;
}
  where
    back : (o z k : ℕ) → FreeHead zones IsZone Q m o z k → FreeHead zones IsZone P m o z k
    back o z k f = record {
      page = f.page;
      settled = λ p. f.settled (to z k p);
      marked = f.marked;
      aligned = f.aligned;
    }

    over : (o b : ℕ) → FreePtr zones IsZone P m o b → FreePtr zones IsZone Q m o b
    over o b f = record {
      z = f.z;
      k = f.k;
      head = record {
        page = f.head.page;
        settled = λ q. f.head.settled (from f.z f.k q);
        marked = f.head.marked;
        aligned = f.head.aligned;
      };
      address = f.address;
    }
