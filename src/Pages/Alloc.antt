-- ===== src/Pages/Alloc.antt =====
-- klib/src/pm/page/mod.rs: what `alloc_pages` returns.
use mars.Prelude.{
  ℕ, subst, zero, suc, ◌+◌, ◌-◌, ◌^◌, ◌≤◌, ◌<◌, ◌≡◌, refl, sym, ap, ap₂, ◌∙◌, ◌≢◌, ◌⊎◌, inl, inr,
  false, none, some, arith, dec_lt, dec_le, ℕ_discrete, leb, Option-cases,
}
use mars.Pages.Memory.{PageAllocator, page_address, free_byte, mark, pop_block}
use mars.Pages.Buddy.{split, take_pages, alloc_pages, first_free}
use mars.Pages.Invariant.{Aligned, Within, InBlock, Page, Apart, value, Inv, FreeHead, Whole}
use mars.Pages.Tiles.{FreeHead-Whole}
use mars.Pages.Links.{Unlinked}
use mars.Pages.Unlink.{unlink-Inv}
use mars.Pages.Steps.{pop_block-Unlinked}
use mars.Pages.Settle.{Marked, Block, alloc-Inv}
use mars.Pages.Regions.{Span, Nothing, InvOf, fill-Marked, Inv-iff}
use native.Mathlib.Nat.{pow-le-pow_right}
use mars.Pages.Split.{Aligned-weaken, Span-first, split-Inv, Frees}

first_free-some :
    (left order : ℕ) (area : ℕ → ℕ) {o : ℕ}
    → first_free left order area ≡ some o
    → (order ≤ o) × (o < order + left) × (area o ≢ 0)
unfolding first_free
first_free-some zero order area e = cc
first_free-some (suc left) order area {o} e = elim (ℕ_discrete (area order) 0) [
  | yes empty ↦
      let rest : (order + 1 ≤ o) × (o < order + 1 + left) × (area o ≢ 0) =
        first_free-some left (order + 1) area (ground arith) in
      (omega arith, omega arith, rest.2)
  | no head ↦
      let same : order ≡ o = ground arith in
      (omega arith, omega arith, λ n. head (ap area same ∙ n))
]

first_free-none :
    (left order : ℕ) (area : ℕ → ℕ)
    → first_free left order area ≡ none
    → (o : ℕ) → order ≤ o
    → o < order + left
    → area o ≡ 0
unfolding first_free
first_free-none zero order area e o le lt = absurd (omega arith)
first_free-none (suc left) order area e o le lt = elim (ℕ_discrete (area order) 0) [
  | yes empty ↦ elim (ℕ_discrete o order) [
    | yes same ↦ ap area same ∙ empty
    | no other ↦ first_free-none left (order + 1) area (ground arith) o (omega arith) (omega arith)
  ]
  | no head ↦ ground arith
]

dec_Span : (z lo hi z' j : ℕ) → Dec (Span z lo hi z' j)
dec_Span z lo hi z' j = elim (ℕ_discrete z' z) [
  | no ne ↦ no λ s. ne s.0
  | yes same ↦ elim (dec_le lo j) [
    | no below ↦ no λ s. below s.1.0
    | yes ge ↦ elim (dec_lt j hi) [ no above ↦ no λ s. above s.1.1 | yes lt ↦ yes (same, (ge, lt)) ]
  ]
]

-- A block of `2 ^ target` pages has been handed out: all of its pages were free, and are used now; the
-- other used pages have the bytes that they had, the other free ones are free.
pub record Allocated (IsZone : ℕ → Type 0) (target : ℕ) (a : PageAllocator) (pages : ℕ)
    (a' : PageAllocator) : Type 0 where
  pub z : ℕ
  pub k : ℕ
  pub zone_ok : IsZone z
  pub address : pages ≡ page_address a.zones z k
  pub aligned : Aligned target k
  pub fits : k + 2 ^ target ≤ (a.zones z).total_pages
  pub were_free : (j : ℕ) → Within target k j → 128 ≤ value a.zones IsZone a.metadata z j
  pub now_used : (j : ℕ) → Within target k j → value a.zones IsZone a'.metadata z j ≡ target
  pub keeps :
      (z' j : ℕ)
      → Page a.zones IsZone z' j
      → value a.zones IsZone a.metadata z' j < 128
      → value a.zones IsZone a'.metadata z' j ≡ value a.zones IsZone a.metadata z' j
  pub others :
      (z' j : ℕ)
      → Page a.zones IsZone z' j
      → 128 ≤ value a.zones IsZone a.metadata z' j
      → ¬ InBlock z k target z' j
      → 128 ≤ value a.zones IsZone a'.metadata z' j
  pub same_zones : a'.zones ≡ a.zones
  pub inv : InvOf IsZone Nothing a'

module _ {IsZone : ℕ → Type 0} (target o : ℕ) (a : PageAllocator) (apart : Apart a.zones IsZone)
    (inv : InvOf IsZone Nothing a) (le : target ≤ o) (ne : a.free_area o ≢ 0) where
  abbrev z : ℕ
  z = (a.blocks (a.free_area o)).zone

  abbrev k : ℕ
  k = (a.blocks (a.free_area o)).page_index

  -- The head of the list knows where it is.
  head_at :
      FreeHead a.zones IsZone Nothing a.metadata o z k × (a.free_area o ≡ page_address a.zones z k)
  head_at =
      let f = (inv.heads o ne).0 in
      let l = inv.links o f.z f.k f.head in
      let zs : z ≡ f.z = ap (λ b. (a.blocks b).zone) f.address ∙ l.zone_at in
      let ks : k ≡ f.k = ap (λ b. (a.blocks b).page_index) f.address ∙ l.index_at in
      (
        subst (λ y. FreeHead a.zones IsZone Nothing a.metadata o y k) (sym zs)
            (subst (λ j. FreeHead a.zones IsZone Nothing a.metadata o f.z j) (sym ks) f.head),
        f.address ∙ ap₂ (λ y j. page_address a.zones y j) (sym zs) (sym ks),
      )

  whole : Whole a.zones IsZone Nothing a.metadata o z k (free_byte o)
  whole = FreeHead-Whole o z k head_at.0 (inv.tiles z k head_at.0.page head_at.0.settled)

  abbrev popped : PageAllocator
  popped = pop_block o a

  popped-Inv : Inv a.zones IsZone (Span z k (k + 2 ^ o)) a.metadata popped.free_area popped.blocks
  popped-Inv =
      let u =
        subst (λ b. Unlinked a.free_area popped.free_area a.blocks popped.blocks o b) head_at.1
          (pop_block-Unlinked o a (inv.heads o ne).1) in
      Inv-iff (λ y j p. elim p [ inl h ↦ absurd h | inr b ↦ b ]) (λ y j b. inr b)
        (unlink-Inv apart inv o z k head_at.0 u)

  abbrev used : PageAllocator
  used = mark z k (2 ^ target) target popped

  block : Block a.zones IsZone z k target target
  block =
      let wide : 2 ^ target ≤ 2 ^ o = pow-le-pow_right (omega arith) le in
      let sum : o ≡ target + (o - target) = omega arith in
      record {
        zone_ok = whole.zone_ok;
        small = omega (arith, whole.small);
        aligned = Aligned-weaken (o - target) target k (subst (λ n. Aligned n k) sum whole.aligned);
        fits = omega (arith, whole.inside, wide);
        kind = inl refl;
      }

  marked : Marked a.zones IsZone a.metadata used.metadata z k target target
  unfolding mark pop_block
  marked = fill-Marked apart a.metadata z k target target target block

  used-Inv : InvOf IsZone (Span z (k + 2 ^ target) (k + 2 ^ o)) used
  unfolding mark pop_block
  used-Inv =
      let wide : 2 ^ target ≤ 2 ^ o = pow-le-pow_right (omega arith) le in
      alloc-Inv (Span-first z k target (k + 2 ^ target) (k + 2 ^ o) refl (omega arith)) marked block
        refl popped-Inv

  abbrev left : ℕ
  left = o - target

  splits :
      InvOf IsZone (Span z (k + 2 ^ target) (k + 2 ^ target)) (split left target z k used)
      × ((split left target z k used).zones ≡ a.zones)
      × Frees a.zones IsZone used.metadata
          (split left target z k used).metadata
          z
          (k + 2 ^ target)
          (k + 2 ^ (target + left))
      × Aligned target k
  unfolding mark pop_block
  splits =
      let sum : o ≡ target + left = omega arith in
      split-Inv left target z k used apart whole.zone_ok (omega (arith, whole.small))
        (subst (λ n. Aligned n k) sum whole.aligned)
        (omega (arith, whole.inside, ap (λ n. 2 ^ n) sum))
        (subst (λ n. InvOf IsZone (Span z (k + 2 ^ target) (k + 2 ^ n)) used) sum used-Inv)

  -- A page that was in use is not in the block that was taken.
  used_outside : (z' j : ℕ) → value a.zones IsZone a.metadata z' j < 128 → ¬ InBlock z k o z' j
  used_outside z' j lt (s, w) =
      omega (arith, lt, (whole.pages j w).0, ap (λ y. value a.zones IsZone a.metadata y j) s)

  pub take_pages-Allocated :
      let (pages, a') = take_pages target o a in Allocated IsZone target a pages a'
  unfolding take_pages
  take_pages-Allocated =
      let (final, zones_same, frees, al) = splits in
      let sum : 2 ^ o ≡ 2 ^ (target + left) = ap (λ n. 2 ^ n) (omega arith) in
      let wide : 2 ^ target ≤ 2 ^ o = pow-le-pow_right (omega arith) le in
      record {
        z = z;
        k = k;
        zone_ok = whole.zone_ok;
        address = refl;
        aligned = al;
        fits = block.fits;
        were_free = λ j w. omega (arith, (whole.pages j (w.0, omega (arith, w.1, wide))).0);
        now_used = λ j w.
            frees.same z j (whole.zone_ok, omega (arith, w.1, block.fits))
              (λ x. absurd (omega (arith, x.1.0, w.1)))
            ∙ marked.inside j w;
        keeps = λ z' j page used_before.
            frees.same z' j page (λ (s, (ge, lt)).
              used_outside z' j used_before (s, (omega (arith, ge), omega (arith, lt, sum))))
            ∙ marked.outside z' j page
                (λ (s, w). used_outside z' j used_before (s, (w.0, omega (arith, w.1, wide))));
        others = λ z' j page free out.
            elim (dec_Span z (k + 2 ^ target) (k + 2 ^ (target + left)) z' j) [
              | yes (s, (ge, lt)) ↦
                  subst (λ y. 128 ≤ value a.zones IsZone (split left target z k used).metadata y j)
                    (sym s) (frees.free j ge lt)
              | no beside ↦
                  subst (λ x. 128 ≤ x)
                    (sym (frees.same z' j page beside ∙ marked.outside z' j page out)) free
            ];
        same_zones = zones_same;
        inv = Inv-iff (λ y j s. absurd (omega (arith, s.1.0, s.1.1))) (λ y j n. absurd n) final;
      }

-- `alloc_pages` on an allocator that keeps the invariant. It returns null, and changes nothing,
-- exactly when the order is too large or every list from that order on is empty; otherwise it hands
-- out a block of pages that were free, and keeps the invariant.
pub alloc_pages-outcome :
    {IsZone : ℕ → Type 0} (target : ℕ) (a : PageAllocator)
    → Apart a.zones IsZone
    → InvOf IsZone Nothing a
    → ((alloc_pages target a ≡ (0, a)) × ((o : ℕ) → target ≤ o → o < 11 → a.free_area o ≡ 0))
      ⊎ ((target < 11)
          × Allocated IsZone target a (alloc_pages target a).0 (alloc_pages target a).1)
unfolding alloc_pages
alloc_pages-outcome {IsZone} target a apart inv = elim (dec_le 11 target) [
  | yes large ↦ inl (ground arith, λ o le lt. absurd (omega arith))
  | no small ↦
      let fits : leb 11 target ≡ false = ground arith in
      elim (Option-cases (first_free (11 - target) target a.free_area)) [
        | inl none_free ↦ inl (
          rw (alloc_pages, fits, none_free) refl,
          λ o le lt. first_free-none (11 - target) target a.free_area none_free o le (omega arith),
        )
        | inr (o, found) ↦
            let (le, lt, ne) = first_free-some (11 - target) target a.free_area found in
            inr (
              omega arith,
              rw (alloc_pages, fits, found) (take_pages-Allocated target o a apart inv le ne),
            )
      ]
]
