-- ===== src/Pages/Tiles.antt =====
-- klib/src/pm/page/mod.rs: the blocks of a page allocator do not overlap.
use mars.Prelude.{
  ℕ, subst, zero, suc, ◌+◌, ◌*◌, ◌^◌, ◌≤◌, ◌<◌, ◌≡◌, sym, ap, ap₂, ◌∙◌, arith, dec_lt, dec_le,
}
use native.Mathlib.Numerals.{unary_clauses}
use mars.Pages.Memory.{Zone, free_byte}
use mars.Pages.Invariant.{Aligned, Within, Apart, value, Whole, Tile, FreeHead, FreePtr}

pub power-positive : (o : ℕ) → 0 < 2 ^ o
power-positive zero = omega arith
power-positive (suc o) = simp unary_clauses (omega (arith, power-positive o))

multiples-apart : (c d q : ℕ) → c < d → c * q + q ≤ d * q
multiples-apart c d q lt = grind arith

pub Within-start : (o k : ℕ) → Within o k k
Within-start o k = (omega arith, omega (arith, power-positive o))

pub dec_Within : (o k j : ℕ) → Dec (Within o k j)
dec_Within o k j = elim (dec_le k j) [
  | yes le ↦ elim (dec_lt j (k + 2 ^ o)) [ yes lt ↦ yes (le, lt) | no ge ↦ no λ w. ge w.1 ]
  | no gt ↦ no λ w. gt w.0
]

-- Two aligned blocks of one size that share a page are one block.
pub Aligned-same : (o k h j : ℕ) → Aligned o k → Aligned o h → Within o k j → Within o h j → k ≡ h
Aligned-same o k h j (c, e) (d, f) w x = elim (dec_lt c d) [
  | yes lt ↦ absurd (omega (arith, multiples-apart c d (2 ^ o) lt))
  | no ge ↦ elim (dec_lt d c) [
    | yes gt ↦ absurd (omega (arith, multiples-apart d c (2 ^ o) gt))
    | no le ↦ let same : c ≡ d = omega arith in e ∙ ap (λ x. x * 2 ^ o) same ∙ sym f
  ]
]

module _ {zones : ℕ → Zone} {IsZone : ℕ → Type 0} {P : ℕ → ℕ → Type 0} {m : ℕ → ℕ} where
  -- Blocks that share a page are one block.
  pub Whole-same :
      (o o' z k k' v v' j : ℕ)
      → Whole zones IsZone P m o z k v
      → Whole zones IsZone P m o' z k' v'
      → Within o k j
      → Within o' k' j
      → (o ≡ o') × (k ≡ k') × (v ≡ v')
  Whole-same o o' z k k' v v' j b c w x =
      let bytes : v ≡ v' = sym (b.pages j w).0 ∙ (c.pages j x).0 in
      let orders : o ≡ o' = ground (arith, b.kind, c.kind, b.small, c.small) in
      let x' : Within o k' j = subst (λ p. Within p k' j) (sym orders) x in
      let al : Aligned o k' = subst (λ p. Aligned p k') (sym orders) c.aligned in
      (orders, Aligned-same o k k' j b.aligned al w x', bytes)

  -- A free block is whole.
  pub FreeHead-Whole :
      (o z k : ℕ)
      → FreeHead zones IsZone P m o z k
      → Tile zones IsZone P m z k
      → Whole zones IsZone P m o z k (free_byte o)
  FreeHead-Whole o z k free tile =
      let order : tile.order ≡ o = ground (arith, tile.whole.kind, tile.whole.small, free.marked) in
      let al : Aligned tile.order k = subst (λ p. Aligned p k) (sym order) free.aligned in
      let head : tile.head ≡ k =
        Aligned-same tile.order tile.head k k tile.whole.aligned al tile.here
          (Within-start tile.order k) in
      subst (λ p. Whole zones IsZone P m p z k (free_byte o)) order
        (subst (λ h. Whole zones IsZone P m tile.order z h (free_byte o)) head
          (subst (λ v. Whole zones IsZone P m tile.order z tile.head v) free.marked tile.whole))

  pub FreeHead-order :
      (o o' z k : ℕ) → FreeHead zones IsZone P m o z k → FreeHead zones IsZone P m o' z k → o ≡ o'
  FreeHead-order o o' z k f g = omega (arith, f.marked, g.marked)

  -- Two pointers to the same free block agree on where it is.
  pub FreePtr-same :
      Apart zones IsZone
      → (o o' b : ℕ) (f : FreePtr zones IsZone P m o b) (g : FreePtr zones IsZone P m o' b)
      → (o ≡ o') × (f.z ≡ g.z) × (f.k ≡ g.k)
  FreePtr-same apart o o' b f g =
      let (zs, ks) =
        apart.addresses f.z g.z f.k g.k f.head.page g.head.page (sym f.address ∙ g.address) in
      (
        omega (arith, f.head.marked, g.head.marked, ap₂ (λ z k. value zones IsZone m z k) zs ks),
        zs,
        ks,
      )
