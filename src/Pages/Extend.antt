-- ===== src/Pages/Extend.antt =====
-- klib/src/pm/page/mod.rs: `add_range` extends an allocator by a zone, all of whose pages are free.
use mars.Prelude.{ℕ, subst, ◌+◌, ◌*◌, ◌≡◌, sym, ap, ◌∙◌, ◌⊎◌, inl, inr, arith}
use mars.Pages.Memory.{Zone, FreeBlock, page_address, free_byte}
use mars.Pages.Invariant.{Page, value, Inv, Tile, FreeHead, FreePtr, Linked}
use mars.Pages.Regions.{Span, Nothing}

-- A zone more.
abbrev pub Or : (ℕ → Type 0) → ℕ → ℕ → Type 0
Or IsZone z y = IsZone y ⊎ (y ≡ z)

-- The old zones and the bytes of their pages are as they were.
pub record Extends (zones zones' : ℕ → Zone) (IsZone : ℕ → Type 0) (m m' : ℕ → ℕ) : Type 0 where
  pub same_zone : (y : ℕ) → IsZone y → zones' y ≡ zones y
  pub same_byte :
      (y j : ℕ) → Page zones IsZone y j → value zones' IsZone m' y j ≡ value zones IsZone m y j

module _ {zones zones' : ℕ → Zone} {IsZone : ℕ → Type 0} {m m' : ℕ → ℕ} (z usable : ℕ)
    (new : (zones' z).total_pages ≡ usable) (other : ¬ IsZone z)
    (extends : Extends zones zones' IsZone m m') where
  abbrev Q : ℕ → ℕ → Type 0
  Q = Span z 0 usable

  abbrev IsZone' : ℕ → Type 0
  IsZone' = Or IsZone z

  not_new : (y j : ℕ) → IsZone y → ¬ Q y j
  not_new y j zone (s, _) = other (subst (λ x. IsZone x) s zone)

  old-Page : (y j : ℕ) → Page zones' IsZone' y j → ¬ Q y j → Page zones IsZone y j
  old-Page y j (zone, lt) out = elim zone [
    | inl old ↦ (old, omega (arith, lt, ap (λ x. x.total_pages) (extends.same_zone y old)))
    | inr s ↦
        absurd (out (s, (omega arith, omega (arith, lt, new, ap (λ x. (zones' x).total_pages) s))))
  ]

  new_head :
      (o y j : ℕ) → FreeHead zones IsZone Nothing m o y j → FreeHead zones' IsZone' Q m' o y j
  new_head o y j f = record {
    page = (
      inl f.page.0,
      omega (arith, f.page.1, ap (λ x. x.total_pages) (extends.same_zone y f.page.0)),
    );
    settled = not_new y j f.page.0;
    marked = extends.same_byte y j f.page ∙ f.marked;
    aligned = f.aligned;
  }

  old_head :
      (o y j : ℕ) → FreeHead zones' IsZone' Q m' o y j → FreeHead zones IsZone Nothing m o y j
  old_head o y j f =
      let page = old-Page y j f.page f.settled in
      record {
        page = page;
        settled = λ n. n;
        marked = sym (extends.same_byte y j page) ∙ f.marked;
        aligned = f.aligned;
      }

  new_ptr : (o b : ℕ) → FreePtr zones IsZone Nothing m o b → FreePtr zones' IsZone' Q m' o b
  new_ptr o b f = record {
    z = f.z;
    k = f.k;
    head = new_head o f.z f.k f.head;
    address =
        f.address ∙ ap (λ x. x.data_base + f.k * 16384) (sym (extends.same_zone f.z f.head.page.0));
  }

  new-Tile :
      (y j : ℕ)
      → Tile zones IsZone Nothing m y j
      → Page zones IsZone y j
      → Tile zones' IsZone' Q m' y j
  new-Tile y j t page =
      let same = extends.same_byte y j page in
      let total = ap (λ x. x.total_pages) (extends.same_zone y page.0) in
      record {
        order = t.order;
        head = t.head;
        here = t.here;
        whole = record {
          zone_ok = inl t.whole.zone_ok;
          small = t.whole.small;
          aligned = t.whole.aligned;
          inside = omega (arith, t.whole.inside, total);
          kind = subst (λ x. (x ≡ t.order) ⊎ (x ≡ free_byte t.order)) (sym same) t.whole.kind;
          pages = λ i w. (
            extends.same_byte y i (page.0, omega (arith, w.1, t.whole.inside))
                ∙ (t.whole.pages i w).0
                ∙ sym same,
            not_new y i page.0,
          );
        };
      }

  pub extend-Inv :
      {area : ℕ → ℕ} {blocks : ℕ → FreeBlock}
      → Inv zones IsZone Nothing m area blocks
      → Inv zones' IsZone' Q m' area blocks
  extend-Inv {area} {blocks} inv = record {
    tiles = λ y j page out.
        let old = old-Page y j page out in new-Tile y j (inv.tiles y j old (λ n. n)) old;
    links = λ o y j f.
        let old = old_head o y j f in
        let l = inv.links o y j old in
        let same : page_address zones y j ≡ page_address zones' y j =
          ap (λ x. x.data_base + j * 16384) (sym (extends.same_zone y old.page.0)) in
        subst (λ b. Linked zones' IsZone' Q m' area blocks o y j b) same
          (record {
            zone_at = l.zone_at;
            index_at = l.index_at;
            first = l.first;
            before = λ ne. (new_ptr o _ (l.before ne).0, (l.before ne).1);
            after = λ ne. (new_ptr o _ (l.after ne).0, (l.after ne).1);
          });
    heads = λ o ne. (new_ptr o _ (inv.heads o ne).0, (inv.heads o ne).1);
    ranked = inv.ranked;
  }
