-- ===== src/Pages/Ranks.antt =====
-- klib/src/pm/page/mod.rs: the order of the blocks in a free list.
use mars.Prelude.{
  ℕ, suc, zero, ◌≤◌, ◌<◌, ◌≡◌, ◌≢◌, ◌↔◌, sym, ap, subst, ◌∙◌, arith, ℕ_discrete, ◌==◌,
  if◌then◌else◌,
}
use mars.Pages.Memory.{Zone, FreeBlock}
use mars.Pages.Invariant.{Ranked, Apart, FreePtr, Inv, Linked}
use mars.Pages.Links.{Unlinked}
use mars.Pages.Steps.{Pushed}

pub unlink-Ranked :
    {area area' : ℕ → ℕ} {blocks blocks' : ℕ → FreeBlock} {o b : ℕ}
    → Unlinked area area' blocks blocks' o b
    → b ≢ 0
    → ((blocks b).next ≢ 0 → (blocks (blocks b).next).prev ≡ b)
    → Ranked blocks
    → Ranked blocks'
unlink-Ranked {blocks = blocks} {b = b} u b_ne linked (rank, below) = (
  rank,
  λ x ne prev_ne. elim (ℕ_discrete x (blocks b).next) [
    | no other ↦
        let e = u.prev_other x other in omega (arith, below x ne (λ p. prev_ne (e ∙ p)), ap rank e)
    | yes same ↦
        let next_ne : (blocks b).next ≢ 0 = λ n. ne (same ∙ n) in
        let e = u.prev_after x next_ne same in
        let back = linked next_ne in
        omega (
          arith,
          below b b_ne (λ p. prev_ne (e ∙ p)),
          below (blocks b).next next_ne (λ p. b_ne (sym back ∙ p)),
          ap rank e,
          ap rank back,
          ap rank same,
        )
  ],
)

-- The new block comes before all the others.
abbrev front_rank : ℕ → (ℕ → ℕ) → ℕ → ℕ
front_rank b rank x = if x == b then 0 else suc (rank x)

pub push-Ranked :
    {area area' : ℕ → ℕ} {blocks blocks' : ℕ → FreeBlock} {o z k b : ℕ}
    → Pushed area area' blocks blocks' o z k b
    → Ranked blocks
    → Ranked blocks'
push-Ranked {area} {blocks = blocks} {blocks' = blocks'} {o = o} {b = b} pushed (rank, below) = (
  front_rank b rank,
  λ x ne prev_ne. elim (ℕ_discrete x b) [
    | yes new ↦ absurd (prev_ne (subst (λ y. (blocks' y).prev ≡ 0) (sym new) pushed.prev_at))
    | no old ↦
        let behind : front_rank b rank x ≡ suc (rank x) = ground (arith, old) in
        elim (ℕ_discrete x (area o)) [
          | yes head ↦
              let first : front_rank b rank b ≡ 0 = ground arith in
              omega (arith, behind, first, ap (front_rank b rank) (pushed.prev_head x ne head))
          | no other ↦
              let e = pushed.prev_other x old other in
              let most : front_rank b rank (blocks x).prev ≤ suc (rank (blocks x).prev) =
                ground arith in
              omega
                (arith, behind, most, below x ne (λ p. prev_ne (e ∙ p)), ap (front_rank b rank) e)
        ]
  ],
)

-- The blocks of the list that starts at `first`.
pub data InList (first : ℕ) (blocks : ℕ → FreeBlock) : ℕ → Type 0 where
  at_head : first ≢ 0 → InList first blocks first
  behind :
      {b : ℕ} → InList first blocks b → (blocks b).next ≢ 0 → InList first blocks (blocks b).next

module _ {zones : ℕ → Zone} {IsZone : ℕ → Type 0} {P : ℕ → ℕ → Type 0} {m : ℕ → ℕ} {area : ℕ → ℕ}
    {blocks : ℕ → FreeBlock} (apart : Apart zones IsZone) (inv : Inv zones IsZone P m area blocks)
    (o : ℕ) where
  linked :
      (b : ℕ) (f : FreePtr zones IsZone P m o b) → Linked zones IsZone P m area blocks o f.z f.k b
  linked b f =
      subst (λ x. Linked zones IsZone P m area blocks o f.z f.k x) (sym f.address)
        (inv.links o f.z f.k f.head)

  InList-FreePtr : (b : ℕ) → InList (area o) blocks b → FreePtr zones IsZone P m o b
  InList-FreePtr b (at_head ne) = (inv.heads o ne).0
  InList-FreePtr b (behind {b = c} l ne) = ((linked c (InList-FreePtr c l)).after ne).0

  -- Backwards from a free block, the ranks lead to the head.
  found :
      (fuel b : ℕ) → inv.ranked.0 b < fuel → FreePtr zones IsZone P m o b → InList (area o) blocks b
  found zero b lt f = absurd (omega arith)
  found (suc fuel) b lt f =
      let l = linked b f in
      let b_ne : b ≢ 0 = λ n. apart.not_null f.z f.k f.head.page (sym f.address ∙ n) in
      elim (ℕ_discrete (blocks b).prev 0) [
        | yes none_before ↦
            let first = l.first none_before in
            subst (λ x. InList (area o) blocks x) first (at_head (λ n. b_ne (sym first ∙ n)))
        | no more ↦
            let (ptr, next) = l.before more in
            let lower = inv.ranked.1 b b_ne more in
            subst (λ x. InList (area o) blocks x) next
              (behind (found fuel (blocks b).prev (omega arith) ptr) (λ n. b_ne (sym next ∙ n)))
      ]

  -- The list of an order holds exactly the free blocks of that order.
  pub InList-iff : (b : ℕ) → InList (area o) blocks b ↔ FreePtr zones IsZone P m o b
  InList-iff b = (InList-FreePtr b, λ f. found (suc (inv.ranked.0 b)) b (omega arith) f)
