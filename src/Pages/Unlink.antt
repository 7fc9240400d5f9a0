-- ===== src/Pages/Unlink.antt =====
-- klib/src/pm/page/mod.rs: the lists are linked both ways when a block has been taken out.
use mars.Prelude.{ℕ, subst, ◌≡◌, refl, sym, ap, ◌∙◌, ◌≢◌, inl, inr, ℕ_discrete}
use mars.Pages.Memory.{Zone, FreeBlock, page_address, free_byte}
use mars.Pages.Invariant.{Within, Apart, Whole, FreeHead, FreePtr, Linked, Inv}
use mars.Pages.Tiles.{FreeHead-Whole, FreePtr-same, Within-start}
use mars.Pages.Ranks.{unlink-Ranked}
use mars.Pages.Links.{With, Unlinked, tiles-With, FreePtr-With}

module _ {zones : ℕ → Zone} {IsZone : ℕ → Type 0} {P : ℕ → ℕ → Type 0} {m : ℕ → ℕ}
    {area area' : ℕ → ℕ} {blocks blocks' : ℕ → FreeBlock} (apart : Apart zones IsZone)
    (inv : Inv zones IsZone P m area blocks) (o z k : ℕ) (free : FreeHead zones IsZone P m o z k)
    (u : Unlinked area area' blocks blocks' o (page_address zones z k)) where
  abbrev b : ℕ
  b = page_address zones z k

  abbrev Q : ℕ → ℕ → Type 0
  Q = With P z k o

  old : Linked zones IsZone P m area blocks o z k b
  old = inv.links o z k free

  block : Whole zones IsZone P m o z k (free_byte o)
  block = FreeHead-Whole o z k free (inv.tiles z k free.page free.settled)

  keeps : (o' x : ℕ) → FreePtr zones IsZone P m o' x → x ≢ b → FreePtr zones IsZone Q m o' x
  keeps o' x f ne = FreePtr-With o z k o' x apart free block f ne inv.tiles

  -- The order of the list that a neighbour is in.
  neighbour_order :
      (o' x : ℕ) → FreePtr zones IsZone P m o x → FreePtr zones IsZone P m o' x → o ≡ o'
  neighbour_order o' x f g = (FreePtr-same apart o o' x f g).0

  module _ (o' z' k' : ℕ) (free' : FreeHead zones IsZone Q m o' z' k') where
    abbrev b' : ℕ
    b' = page_address zones z' k'

    stays : FreeHead zones IsZone P m o' z' k'
    stays = record {
      page = free'.page;
      settled = λ p. free'.settled (inl p);
      marked = free'.marked;
      aligned = free'.aligned;
    }

    itself : FreePtr zones IsZone P m o' b'
    itself = record { z = z'; k = k'; head = stays; address = refl }

    other : b' ≢ b
    other e =
        let (zs, ks) = apart.addresses z' z k' k free'.page free.page e in
        free'.settled (inr (zs, subst (λ j. Within o k j) (sym ks) (Within-start o k)))

    linked : Linked zones IsZone P m area blocks o' z' k' b'
    linked = inv.links o' z' k' stays

    not_null : b' ≢ 0
    not_null = apart.not_null z' k' free'.page

    first : (blocks' b').prev ≡ 0 → area' o' ≡ b'
    first e = elim (ℕ_discrete b' (blocks b).next) [
      | yes same ↦
          let next_ne : (blocks b).next ≢ 0 = λ n. not_null (same ∙ n) in
          let prev0 : (blocks b).prev ≡ 0 = sym (u.prev_after b' next_ne same) ∙ e in
          let orders =
            neighbour_order o' b'
              (subst (λ x. FreePtr zones IsZone P m o x) (sym same) (old.after next_ne).0) itself in
          subst (λ p. area' p ≡ b') orders (u.area_head prev0 ∙ sym same)
      | no ne ↦
          let at : area o' ≡ b' = linked.first (sym (u.prev_other b' ne) ∙ e) in
          elim (ℕ_discrete o' o) [
            | no others ↦ u.area_other o' others ∙ at
            | yes orders ↦ elim (ℕ_discrete (blocks b).prev 0) [
              | yes prev0 ↦ absurd (other (sym at ∙ ap area orders ∙ old.first prev0))
              | no inner ↦ ap area' orders ∙ u.area_inner inner ∙ sym (ap area orders) ∙ at
            ]
          ]
    ]

    abbrev Before : ℕ → Type 0
    Before x = FreePtr zones IsZone Q m o' x × ((blocks' x).next ≡ b')

    before : (blocks' b').prev ≢ 0 → Before (blocks' b').prev
    before ne = elim (ℕ_discrete b' (blocks b).next) [
      | yes same ↦
          let next_ne : (blocks b).next ≢ 0 = λ n. not_null (same ∙ n) in
          let e = u.prev_after b' next_ne same in
          let prev_ne : (blocks b).prev ≢ 0 = λ p. ne (e ∙ p) in
          let (ptr, back) = old.before prev_ne in
          let orders =
            neighbour_order o' b'
              (subst (λ x. FreePtr zones IsZone P m o x) (sym same) (old.after next_ne).0) itself in
          let apart_b : (blocks b).prev ≢ b =
            λ p. other (same ∙ sym (ap (λ x. (blocks x).next) p) ∙ back) in
          subst Before (sym e) (
            subst (λ p. FreePtr zones IsZone Q m p (blocks b).prev) orders
                (keeps o (blocks b).prev ptr apart_b),
            u.next_before (blocks b).prev prev_ne refl ∙ sym same,
          )
      | no differs ↦
          let e = u.prev_other b' differs in
          let prev_ne : (blocks b').prev ≢ 0 = λ p. ne (e ∙ p) in
          let (ptr, back) = linked.before prev_ne in
          let apart_b : (blocks b').prev ≢ b =
            λ p. differs (sym back ∙ ap (λ x. (blocks x).next) p) in
          let apart_prev : (blocks b').prev ≢ (blocks b).prev = λ p.
            other
              (sym back ∙ ap (λ x. (blocks x).next) p ∙ (old.before (λ n. prev_ne (p ∙ n))).1) in
          subst Before (sym e) (keeps o' _ ptr apart_b, u.next_other _ apart_prev ∙ back)
    ]

    abbrev After : ℕ → Type 0
    After x = FreePtr zones IsZone Q m o' x × ((blocks' x).prev ≡ b')

    after : (blocks' b').next ≢ 0 → After (blocks' b').next
    after ne = elim (ℕ_discrete b' (blocks b).prev) [
      | yes same ↦
          let prev_ne : (blocks b).prev ≢ 0 = λ n. not_null (same ∙ n) in
          let e = u.next_before b' prev_ne same in
          let next_ne : (blocks b).next ≢ 0 = λ p. ne (e ∙ p) in
          let (ptr, back) = old.after next_ne in
          let orders =
            neighbour_order o' b'
              (subst (λ x. FreePtr zones IsZone P m o x) (sym same) (old.before prev_ne).0)
              itself in
          let apart_b : (blocks b).next ≢ b =
            λ p. other (same ∙ sym (ap (λ x. (blocks x).prev) p) ∙ back) in
          subst After (sym e) (
            subst (λ p. FreePtr zones IsZone Q m p (blocks b).next) orders
                (keeps o (blocks b).next ptr apart_b),
            u.prev_after (blocks b).next next_ne refl ∙ sym same,
          )
      | no differs ↦
          let e = u.next_other b' differs in
          let next_ne : (blocks b').next ≢ 0 = λ p. ne (e ∙ p) in
          let (ptr, back) = linked.after next_ne in
          let apart_b : (blocks b').next ≢ b =
            λ p. differs (sym back ∙ ap (λ x. (blocks x).prev) p) in
          let apart_next : (blocks b').next ≢ (blocks b).next = λ p.
            other (sym back ∙ ap (λ x. (blocks x).prev) p ∙ (old.after (λ n. next_ne (p ∙ n))).1) in
          subst After (sym e) (keeps o' _ ptr apart_b, u.prev_other _ apart_next ∙ back)
    ]

    links-With : Linked zones IsZone Q m area' blocks' o' z' k' b'
    links-With = record {
      zone_at = u.zone_at b' ∙ linked.zone_at;
      index_at = u.index_at b' ∙ linked.index_at;
      first = first;
      before = before;
      after = after;
    }

  abbrev Head : ℕ → ℕ → Type 0
  Head o' x = FreePtr zones IsZone Q m o' x × ((blocks' x).prev ≡ 0)

  -- A head that stays.
  first_stays : (o' : ℕ) → area o' ≢ 0 → area o' ≢ b → Head o' (area o')
  first_stays o' ne apart_b =
      let (ptr, prev0) = inv.heads o' ne in
      let differs : area o' ≢ (blocks b).next = λ e.
        let next_ne : (blocks b).next ≢ 0 = λ n. ne (e ∙ n) in
        apart.not_null z k free.page
          (sym (old.after next_ne).1 ∙ ap (λ x. (blocks x).prev) (sym e) ∙ prev0) in
      (keeps o' _ ptr apart_b, u.prev_other _ differs ∙ prev0)

  heads-With : (o' : ℕ) → area' o' ≢ 0 → Head o' (area' o')
  heads-With o' ne = elim (ℕ_discrete o' o) [
    | no others ↦
        let e = u.area_other o' others in
        let area_ne : area o' ≢ 0 = λ n. ne (e ∙ n) in
        let ptr = (inv.heads o' area_ne).0 in
        let apart_b : area o' ≢ b = λ x. others (
          sym (
            neighbour_order o' b (record { z = z; k = k; head = free; address = refl })
              (subst (λ y. FreePtr zones IsZone P m o' y) x ptr))) in
        subst (Head o') (sym e) (first_stays o' area_ne apart_b)
    | yes orders ↦ elim (ℕ_discrete (blocks b).prev 0) [
      | yes prev0 ↦
          let e : area' o' ≡ (blocks b).next = ap area' orders ∙ u.area_head prev0 in
          let next_ne : (blocks b).next ≢ 0 = λ n. ne (e ∙ n) in
          let (ptr, back) = old.after next_ne in
          let apart_b : (blocks b).next ≢ b =
            λ p. apart.not_null z k free.page (sym back ∙ ap (λ x. (blocks x).prev) p ∙ prev0) in
          subst (Head o') (sym e) (
            subst (λ p. FreePtr zones IsZone Q m p (blocks b).next) (sym orders)
                (keeps o _ ptr apart_b),
            u.prev_after _ next_ne refl ∙ prev0,
          )
      | no inner ↦
          let e : area' o' ≡ area o' =
            ap area' orders ∙ u.area_inner inner ∙ sym (ap area orders) in
          let area_ne : area o' ≢ 0 = λ n. ne (e ∙ n) in
          let apart_b : area o' ≢ b =
            λ x. inner (ap (λ y. (blocks y).prev) (sym x) ∙ (inv.heads o' area_ne).1) in
          subst (Head o') (sym e) (first_stays o' area_ne apart_b)
    ]
  ]

  -- Taking a free block out of its list keeps the invariant, with its pages set aside.
  pub unlink-Inv : Inv zones IsZone Q m area' blocks'
  unlink-Inv = record {
    tiles = tiles-With o z k (free_byte o) inv.tiles block;
    links = links-With;
    heads = heads-With;
    ranked = unlink-Ranked u (apart.not_null z k free.page) (λ ne. (old.after ne).1) inv.ranked;
  }
