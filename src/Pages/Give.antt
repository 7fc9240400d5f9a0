-- ===== src/Pages/Give.antt =====
-- klib/src/pm/page/mod.rs: pages that belong to no block become a free block, at the head of its list.
use mars.Prelude.{ℕ, subst, ◌≡◌, refl, sym, ap, ◌∙◌, ◌≢◌, arith, ℕ_discrete}
use mars.Pages.Memory.{Zone, FreeBlock, page_address, free_byte}
use mars.Pages.Invariant.{Aligned, Within, Page, Apart, FreeHead, FreePtr, Linked, Inv}
use mars.Pages.Tiles.{Aligned-same, FreePtr-same, Within-start, power-positive}
use mars.Pages.Ranks.{push-Ranked}
use mars.Pages.Steps.{Pushed}
use mars.Pages.Settle.{
  Without, Marked, Block, tiles-settle, FreePtr-settle, FreeHead-before, dec_InBlock,
}

module _ {zones : ℕ → Zone} {IsZone : ℕ → Type 0} {P Q : ℕ → ℕ → Type 0} {m m' : ℕ → ℕ}
    {area area' : ℕ → ℕ} {blocks blocks' : ℕ → FreeBlock} {z k o : ℕ} (apart : Apart zones IsZone)
    (inv : Inv zones IsZone P m area blocks) (without : Without P Q z k o)
    (marked : Marked zones IsZone m m' z k o (free_byte o))
    (block : Block zones IsZone z k o (free_byte o))
    (pushed : Pushed area area' blocks blocks' o z k (page_address zones z k)) where
  abbrev b : ℕ
  b = page_address zones z k

  page : Page zones IsZone z k
  page = (block.zone_ok, omega (arith, block.fits, power-positive o))

  -- The new block.
  head : FreeHead zones IsZone Q m' o z k
  head = record {
    page = page;
    settled = without.out z k (refl, Within-start o k);
    marked = marked.inside k (Within-start o k);
    aligned = block.aligned;
  }

  itself : FreePtr zones IsZone Q m' o b
  itself = record { z = z; k = k; head = head; address = refl }

  settle : (o' x : ℕ) → FreePtr zones IsZone P m o' x → FreePtr zones IsZone Q m' o' x
  settle = FreePtr-settle without marked block

  -- A block that was free is another one.
  differs : (o' x : ℕ) → FreePtr zones IsZone P m o' x → x ≢ b
  differs o' x f e =
      let (zs, ks) = apart.addresses f.z z f.k k f.head.page page (sym f.address ∙ e) in
      f.head.settled (
        subst (λ y. P y f.k) (sym zs)
          (without.was f.k (subst (λ j. Within o k j) (sym ks) (Within-start o k))))

  old_order : (o' : ℕ) → area o ≢ 0 → FreePtr zones IsZone P m o' (area o) → o' ≡ o
  old_order o' ne f = (FreePtr-same apart o' o (area o) f (inv.heads o ne).0).0

  -- The new block is linked.
  new-Linked : Linked zones IsZone Q m' area' blocks' o z k b
  new-Linked = record {
    zone_at = pushed.zone_at;
    index_at = pushed.index_at;
    first = λ e. pushed.area_at;
    before = λ ne. absurd (ne pushed.prev_at);
    after = λ ne.
        let area_ne : area o ≢ 0 = λ n. ne (pushed.next_at ∙ n) in
        subst (λ x. FreePtr zones IsZone Q m' o x × ((blocks' x).prev ≡ b)) (sym pushed.next_at)
          (settle o (area o) (inv.heads o area_ne).0, pushed.prev_head (area o) area_ne refl);
  }

  module _ (o' z' k' : ℕ) (free : FreeHead zones IsZone P m o' z' k') where
    abbrev b' : ℕ
    b' = page_address zones z' k'

    linked : Linked zones IsZone P m area blocks o' z' k' b'
    linked = inv.links o' z' k' free

    ptr : FreePtr zones IsZone P m o' b'
    ptr = record { z = z'; k = k'; head = free; address = refl }

    not_null : b' ≢ 0
    not_null = apart.not_null z' k' free.page

    other : b' ≢ b
    other = differs o' b' ptr

    first : (blocks' b').prev ≡ 0 → area' o' ≡ b'
    first e = elim (ℕ_discrete b' (area o)) [
      | yes same ↦ absurd (apart.not_null z k page (sym (pushed.prev_head b' not_null same) ∙ e))
      | no ne ↦
          let at : area o' ≡ b' = linked.first (sym (pushed.prev_other b' other ne) ∙ e) in
          let orders : o' ≢ o = λ x. ne (sym at ∙ ap area x) in pushed.area_other o' orders ∙ at
    ]

    abbrev Before : ℕ → Type 0
    Before x = FreePtr zones IsZone Q m' o' x × ((blocks' x).next ≡ b')

    before : (blocks' b').prev ≢ 0 → Before (blocks' b').prev
    before ne = elim (ℕ_discrete b' (area o)) [
      | yes same ↦
          let area_ne : area o ≢ 0 = λ n. not_null (same ∙ n) in
          let orders = old_order o' area_ne (subst (λ x. FreePtr zones IsZone P m o' x) same ptr) in
          subst Before (sym (pushed.prev_head b' not_null same)) (
            subst (λ p. FreePtr zones IsZone Q m' p b) (sym orders) itself,
            pushed.next_at ∙ sym same,
          )
      | no no_head ↦
          let e = pushed.prev_other b' other no_head in
          let prev_ne : (blocks b').prev ≢ 0 = λ p. ne (e ∙ p) in
          let (f, back) = linked.before prev_ne in
          subst Before (sym e) (settle o' _ f, pushed.next_other _ (differs o' _ f) ∙ back)
    ]

    abbrev After : ℕ → Type 0
    After x = FreePtr zones IsZone Q m' o' x × ((blocks' x).prev ≡ b')

    after : (blocks' b').next ≢ 0 → After (blocks' b').next
    after ne =
        let e = pushed.next_other b' other in
        let next_ne : (blocks b').next ≢ 0 = λ p. ne (e ∙ p) in
        let (f, back) = linked.after next_ne in
        let no_head : (blocks b').next ≢ area o = λ p.
          let area_ne : area o ≢ 0 = λ n. next_ne (p ∙ n) in
          not_null (sym back ∙ ap (λ x. (blocks x).prev) p ∙ (inv.heads o area_ne).1) in
        subst After (sym e) (settle o' _ f, pushed.prev_other _ (differs o' _ f) no_head ∙ back)

    old-Linked : Linked zones IsZone Q m' area' blocks' o' z' k' b'
    old-Linked = record {
      zone_at = pushed.zone_other b' other ∙ linked.zone_at;
      index_at = pushed.index_other b' other ∙ linked.index_at;
      first = first;
      before = before;
      after = after;
    }

  -- Only the new block begins in its pages.
  new-links :
      (o' j : ℕ)
      → FreeHead zones IsZone Q m' o' z j
      → Within o k j
      → Linked zones IsZone Q m' area' blocks' o' z j (page_address zones z j)
  new-links o' j f w =
      let orders : o ≡ o' = omega (arith, f.marked, marked.inside j w) in
      let al : Aligned o j = subst (λ p. Aligned p j) (sym orders) f.aligned in
      let heads = Aligned-same o k j j block.aligned al w (Within-start o j) in
      subst (λ p. Linked zones IsZone Q m' area' blocks' p z j (page_address zones z j)) orders
        (subst (λ i. Linked zones IsZone Q m' area' blocks' o z i (page_address zones z i)) heads
          new-Linked)

  give-heads :
      (o' : ℕ)
      → area' o' ≢ 0
      → FreePtr zones IsZone Q m' o' (area' o') × ((blocks' (area' o')).prev ≡ 0)
  give-heads o' ne = elim (ℕ_discrete o' o) [
    | yes same ↦
        subst (λ p. FreePtr zones IsZone Q m' p (area' p) × ((blocks' (area' p)).prev ≡ 0))
          (sym same)
          (subst (λ x. FreePtr zones IsZone Q m' o x × ((blocks' x).prev ≡ 0)) (sym pushed.area_at)
            (itself, pushed.prev_at))
    | no others ↦
        let e = pushed.area_other o' others in
        let area_ne : area o' ≢ 0 = λ n. ne (e ∙ n) in
        let (f, prev0) = inv.heads o' area_ne in
        let no_head : area o' ≢ area o = λ p.
          let old_ne : area o ≢ 0 = λ n. area_ne (p ∙ n) in
          others (old_order o' old_ne (subst (λ x. FreePtr zones IsZone P m o' x) p f)) in
        subst (λ x. FreePtr zones IsZone Q m' o' x × ((blocks' x).prev ≡ 0)) (sym e)
          (settle o' _ f, pushed.prev_other _ (differs o' _ f) no_head ∙ prev0)
  ]

  -- Giving a block of pages that belong to none keeps the invariant.
  pub give-Inv : Inv zones IsZone Q m' area' blocks'
  give-Inv = record {
    tiles = tiles-settle without marked block inv.tiles;
    links = λ o' z' j f. elim (dec_InBlock z k o z' j) [
      | yes (same, w) ↦
          subst (λ y. Linked zones IsZone Q m' area' blocks' o' y j (page_address zones y j))
            (sym same) (new-links o' j (subst (λ y. FreeHead zones IsZone Q m' o' y j) same f) w)
      | no out ↦ old-Linked o' z' j (FreeHead-before without marked block o' z' j f out)
    ];
    heads = give-heads;
    ranked = push-Ranked pushed inv.ranked;
  }
