-- ===== src/Devices/Adding.antt =====
-- klib/src/hardware/device.rs: `add_device` keeps the tree.
use mars.Prelude.{
  ℕ, subst, ◌<◌, ◌≡◌, sym, ap, ◌∙◌, ◌↔◌, ◌⊎◌, inl, inr, Option, none, some, arith, dec_lt, length,
  get_elem?, get_elem?-of_lt,
}
use mars.Devices.{DeviceNode, DeviceTree}
use mars.Devices.Tree.{In, get_elem?_lt, IsTree, Added}

pub some_inj : {A : Type 0} {x y : A} → Option.some x ≡ some y → x ≡ y
some_inj e = cc

module _ {T R : Type 0} where
  -- The parent of a new device is in the tree before it.
  abbrev pub InTree : Option ℕ → DeviceTree T R → Type 0
  InTree none t = Unit
  InTree (some p) t = p < length t.nodes

  -- Where a node of the new tree comes from.
  record Kept (parent : Option ℕ) (t : DeviceTree T R) (i : ℕ) (n' : DeviceNode T R) : Type 0 where
    n : DeviceNode T R
    before : get_elem? t.nodes i ≡ some n
    id_same : n'.id ≡ n.id
    parent_same : n'.parent ≡ n.parent
    more :
        (c : ℕ) → In c n'.children ↔ (In c n.children ⊎ ((c ≡ length t.nodes) × (parent ≡ some i)))

  module _ {parent : Option ℕ} {t t' : DeviceTree T R} (add : Added parent t t') where
    from_old :
        (i : ℕ) (n' : DeviceNode T R)
        → get_elem? t'.nodes i ≡ some n'
        → i < length t.nodes
        → Kept parent t i n'
    from_old i n' e lt =
        let (n, before) = get_elem?-of_lt t.nodes i lt in
        let (n'', at, same_id, same_parent, more) = add.old i n before in
        subst (Kept parent t i) (some_inj (sym at ∙ e)) (record {
          n = n;
          before = before;
          id_same = same_id;
          parent_same = same_parent;
          more = more;
        })

    origin :
        (i : ℕ) (n' : DeviceNode T R)
        → get_elem? t'.nodes i ≡ some n'
        → Kept parent t i n' ⊎ ((i ≡ length t.nodes) × (add.node ≡ n'))
    origin i n' e = elim (dec_lt i (length t.nodes)) [
      | yes lt ↦ inl (from_old i n' e lt)
      | no ge ↦
          let last : i ≡ length t.nodes = omega (arith, get_elem?_lt t'.nodes i n' e, add.few) in
          inr (last, some_inj (sym add.here ∙ sym (ap (get_elem? t'.nodes) last) ∙ e))
    ]

    module _ (is_tree : IsTree t) where
      numbered_after : (i : ℕ) (n' : DeviceNode T R) → get_elem? t'.nodes i ≡ some n' → n'.id ≡ i
      numbered_after i n' e = elim (origin i n' e) [
        | inl kept ↦ kept.id_same ∙ is_tree.numbered i kept.n kept.before
        | inr (last, new) ↦ ap (λ (n : DeviceNode T R). n.id) (sym new) ∙ add.number ∙ sym last
      ]

      below_after :
          InTree parent t
          → (i p : ℕ) (n' : DeviceNode T R) → get_elem? t'.nodes i ≡ some n'
          → n'.parent ≡ some p
          → (p < i) × (m : DeviceNode T R) × (get_elem? t'.nodes p ≡ some m) × In i m.children
      below_after known i p n' e up = elim (origin i n' e) [
        | inl kept ↦
            let (lt, m, at, child) =
              is_tree.below i p kept.n kept.before (sym kept.parent_same ∙ up) in
            let (m', at', same_id, same_parent, more) = add.old p m at in
            (lt, m', at', (more i).1 (inl child))
        | inr (last, new) ↦
            let its : parent ≡ some p =
              sym add.its_parent ∙ ap (λ (n : DeviceNode T R). n.parent) new ∙ up in
            let lt : p < length t.nodes = subst (λ (o : Option ℕ). InTree o t) its known in
            let (m, at) = get_elem?-of_lt t.nodes p lt in
            let (m', at', same_id, same_parent, more) = add.old p m at in
            (omega (arith, last), m', at', (more i).1 (inr (last, its)))
      ]

      above_after :
          (i c : ℕ) (n' : DeviceNode T R)
          → get_elem? t'.nodes i ≡ some n'
          → In c n'.children
          → (m : DeviceNode T R) × (get_elem? t'.nodes c ≡ some m) × (m.parent ≡ some i)
      above_after i c n' e child = elim (origin i n' e) [
        | inl kept ↦ elim ((kept.more c).0 child) [
          | inl was ↦
              let (m, at, up) = is_tree.above i c kept.n kept.before was in
              let (m', at', same_id, same_parent, more) = add.old c m at in
              (m', at', same_parent ∙ up)
          | inr (last, its) ↦
              (add.node, ap (get_elem? t'.nodes) last ∙ add.here, add.its_parent ∙ its)
        ]
        | inr (last, new) ↦
            absurd (
              subst (In c) (ap (λ (n : DeviceNode T R). n.children) (sym new) ∙ add.childless)
                child)
      ]

      listed_after :
          (i : ℕ) (n' : DeviceNode T R)
          → get_elem? t'.nodes i ≡ some n'
          → n'.parent ≡ none
          → In i t'.roots
      listed_after i n' e up = elim (origin i n' e) [
        | inl kept ↦
            (add.the_roots i).1
              (inl (is_tree.listed i kept.n kept.before (sym kept.parent_same ∙ up)))
        | inr (last, new) ↦
            (add.the_roots i).1
              (inr (last, sym add.its_parent ∙ ap (λ (n : DeviceNode T R). n.parent) new ∙ up))
      ]

      free_after :
          (i : ℕ)
          → In i t'.roots
          → (n : DeviceNode T R) × (get_elem? t'.nodes i ≡ some n) × (n.parent ≡ none)
      free_after i root = elim ((add.the_roots i).0 root) [
        | inl was ↦
            let (m, at, up) = is_tree.free i was in
            let (m', at', same_id, same_parent, more) = add.old i m at in
            (m', at', same_parent ∙ up)
        | inr (last, its) ↦
            (add.node, ap (get_elem? t'.nodes) last ∙ add.here, add.its_parent ∙ its)
      ]

      pub Added-IsTree : InTree parent t → IsTree t'
      Added-IsTree known = record {
        numbered = numbered_after;
        below = below_after known;
        above = above_after;
        listed = listed_after;
        free = free_after;
      }
