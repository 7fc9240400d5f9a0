-- ===== src/Devices/Keeps.antt =====
-- klib/src/hardware/device.rs: `add_device` on a tree whose nodes include the parent.
use mars.Prelude.{
  ℕ, subst, suc, ◌<◌, ◌≡◌, refl, sym, ap, ◌∙◌, ◌≢◌, ◌↔◌, ◌⊎◌, inl, inr, Option, none, some, List,
  [], ◌∷◌, ◌++◌, arith, ℕ_discrete, length, get_elem?, set, length-append, get_elem?-set_ne,
  get_elem?-of_lt, get_elem?-set_self, length-set,
}
use mars.Devices.{
  DeviceNode, DeviceTree, DeviceClass, DeviceInitPriority, add_child, add_device, attach,
}
use mars.Devices.Tree.{
  In, In-append, get_elem?-append_last, get_elem?-append_old, get_elem?_lt, IsTree, Added,
}
use mars.Devices.Adding.{InTree, Added-IsTree, some_inj}

none≢some : {A : Type 0} {x : A} → Option.none ≢ some x
none≢some e = cc

module _ {T R : Type 0} (class : DeviceClass) (compatible : List T) (resources : List R)
    (priority : DeviceInitPriority) (t : DeviceTree T R) where
  -- The node that is pushed.
  abbrev new_node : Option ℕ → DeviceNode T R
  new_node parent = record {
    id = length t.nodes;
    priority = priority;
    parent = parent;
    class = class;
    compatible = compatible;
    resources = resources;
    children = [];
  }

  append_few : (n : DeviceNode T R) → length (t.nodes ++ n ∷ []) ≡ suc (length t.nodes)
  append_few n = omega (arith, length-append t.nodes (n ∷ []))

  add_root-Added :
      Added none t
        (record { nodes = t.nodes ++ new_node none ∷ []; roots = t.roots ++ length t.nodes ∷ [] })
  add_root-Added = record {
    node = new_node none;
    here = get_elem?-append_last t.nodes (new_node none);
    number = refl;
    its_parent = refl;
    childless = refl;
    old = λ i n at. (
      n,
      get_elem?-append_old t.nodes (new_node none) i (get_elem?_lt t.nodes i n at) ∙ at,
      refl,
      refl,
      (λ c. ((λ h. inl h), (λ h. elim h [ inl was ↦ was | inr (last, e) ↦ absurd (none≢some e) ]))),
    );
    few = append_few (new_node none);
    the_roots = λ c. (
      (λ h. elim ((In-append c (length t.nodes) t.roots).0 h) [
        | inl was ↦ inl was
        | inr e ↦ inr (e, refl)
      ]),
      (λ h.
          (In-append c (length t.nodes) t.roots).1
            (elim h [ inl was ↦ inl was | inr (e, r) ↦ inr e ])),
    );
  }

  attach_root :
      attach none
        (length t.nodes)
        (record { nodes = t.nodes ++ new_node none ∷ []; roots = t.roots })
      ≡ some
          (record { nodes = t.nodes ++ new_node none ∷ []; roots = t.roots ++ length t.nodes ∷ [] })
  unfolding attach
  attach_root = refl

  module _ (p : ℕ) (node : DeviceNode T R) (lt : p < length t.nodes)
      (at_p : get_elem? t.nodes p ≡ some node) where
    abbrev pushed : List (DeviceNode T R)
    pushed = t.nodes ++ new_node (some p) ∷ []

    kept_node :
        (i : ℕ) (n : DeviceNode T R)
        → get_elem? t.nodes i ≡ some n
        → (n' : DeviceNode T R) × (get_elem? (set pushed p (add_child (length t.nodes) node)) i
            ≡ some n')
          × (n'.id ≡ n.id)
          × (n'.parent ≡ n.parent)
          × ((c : ℕ)
              → In c n'.children ↔ (In c n.children ⊎ ((c ≡ length t.nodes) × (some p ≡ some i))))
    kept_node i n at = elim (ℕ_discrete p i) [
      | no other ↦ (
        n,
        get_elem?-set_ne pushed (add_child (length t.nodes) node) other
            ∙ get_elem?-append_old t.nodes (new_node (some p)) i (get_elem?_lt t.nodes i n at)
            ∙ at,
        refl,
        refl,
        (λ c. (
          (λ h. inl h),
          (λ h. elim h [ inl was ↦ was | inr (last, e) ↦ absurd (other (some_inj e)) ]),
        )),
      )
      | yes same ↦
          let it : node ≡ n = some_inj (sym at_p ∙ ap (get_elem? t.nodes) same ∙ at) in
          (
            add_child (length t.nodes) node,
            ap (get_elem? (set pushed p (add_child (length t.nodes) node))) (sym same)
                ∙ get_elem?-set_self pushed p (add_child (length t.nodes) node)
                    (omega (arith, append_few (new_node (some p)))),
            ap (λ (x : DeviceNode T R). x.id) it,
            ap (λ (x : DeviceNode T R). x.parent) it,
            (λ c. (
              (λ h. elim ((In-append c (length t.nodes) node.children).0 h) [
                | inl was ↦ inl (subst (λ (x : DeviceNode T R). In c x.children) it was)
                | inr e ↦ inr (e, ap some same)
              ]),
              (λ h. (In-append c (length t.nodes) node.children).1 (elim h [
                | inl was ↦ inl (subst (λ (x : DeviceNode T R). In c x.children) (sym it) was)
                | inr (e, r) ↦ inr e
              ])),
            )),
          )
    ]

    add_below-Added :
        Added
          (some p)
          t
          (record { nodes = set pushed p (add_child (length t.nodes) node); roots = t.roots })
    add_below-Added = record {
      node = new_node (some p);
      here =
          get_elem?-set_ne pushed (add_child (length t.nodes) node) (λ e. absurd (omega (arith, e)))
          ∙ get_elem?-append_last t.nodes (new_node (some p));
      number = refl;
      its_parent = refl;
      childless = refl;
      old = kept_node;
      few = length-set pushed p (add_child (length t.nodes) node) ∙ append_few (new_node (some p));
      the_roots = λ c. (
        (λ h. inl h),
        (λ h. elim h [ inl was ↦ was | inr (last, e) ↦ absurd (none≢some (sym e)) ]),
      );
    }

    attach_found :
        attach (some p) (length t.nodes) (record { nodes = pushed; roots = t.roots })
        ≡ some (record { nodes = set pushed p (add_child (length t.nodes) node); roots = t.roots })
    unfolding attach
    attach_found =
        let there = get_elem?-append_old t.nodes (new_node (some p)) p lt ∙ at_p in
        rw (attach, there) refl

-- Adding a device to a tree returns the next number and a tree: the device is there under its number,
-- without children, and is a child of its parent or a root; the other nodes keep their numbers and
-- parents, and their children but for the new one. The parent, if there is one, is in the tree.
pub add_device-Added :
    {T R : Type 0} (parent : Option ℕ) (class : DeviceClass) (compatible : List T)
    (resources : List R) (priority : DeviceInitPriority) (t : DeviceTree T R)
    → IsTree t
    → InTree parent t
    → (t' : DeviceTree T R) × (add_device parent class compatible resources priority t
        ≡ some (length t.nodes, t'))
      × Added parent t t'
      × IsTree t'
unfolding add_device
add_device-Added none class compatible resources priority t is_tree known =
    let added = add_root-Added class compatible resources priority t in
    (
      _,
      rw (add_device, attach_root class compatible resources priority t) refl,
      added,
      Added-IsTree added is_tree known,
    )
add_device-Added (some p) class compatible resources priority t is_tree known =
    let (node, at_p) = get_elem?-of_lt t.nodes p known in
    let added = add_below-Added class compatible resources priority t p node known at_p in
    (
      _,
      (rw (add_device, attach_found class compatible resources priority t p node known at_p) refl),
      added,
      Added-IsTree added is_tree known,
    )
