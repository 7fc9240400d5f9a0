-- ===== src/Devices/Tree.antt =====
-- klib/src/hardware/device.rs: what a tree of devices promises, and that `add_device` keeps it.
use mars.Prelude.{
  ℕ, zero, suc, ◌<◌, ◌≡◌, refl, ◌≢◌, ◌↔◌, ◌⊎◌, inl, inr, Option, none, some, List, [], ◌∷◌, ◌++◌,
  arith, length, get_elem?,
}
use mars.Devices.{DeviceNode, DeviceTree}

abbrev pub In : ℕ → List ℕ → Type 0
In x [] = ⊥
In x (y ∷ ys) = (x ≡ y) ⊎ In x ys

pub In-append : (x y : ℕ) (xs : List ℕ) → In x (xs ++ y ∷ []) ↔ (In x xs ⊎ (x ≡ y))
In-append x y [] = (
  λ h. elim h [ inl e ↦ inr e | inr never ↦ inl never ],
  λ h. elim h [ inl never ↦ inr never | inr e ↦ inl e ],
)
In-append x y (z ∷ xs) = (
  (λ h. elim h [
    | inl e ↦ inl (inl e)
    | inr later ↦ elim ((In-append x y xs).0 later) [ inl i ↦ inl (inr i) | inr e ↦ inr e ]
  ]),
  (λ h. elim h [
    | inl here ↦ elim here [ inl e ↦ inl e | inr i ↦ inr ((In-append x y xs).1 (inl i)) ]
    | inr e ↦ inr ((In-append x y xs).1 (inr e))
  ]),
)

module _ {A : Type 0} where
  pub get_elem?-append_last : (xs : List A) (x : A) → get_elem? (xs ++ x ∷ []) (length xs) ≡ some x
  get_elem?-append_last [] x = refl
  get_elem?-append_last (y ∷ xs) x = get_elem?-append_last xs x

  pub get_elem?-append_old :
      (xs : List A) (x : A) (i : ℕ) → i < length xs → get_elem? (xs ++ x ∷ []) i ≡ get_elem? xs i
  get_elem?-append_old [] x i lt = absurd (omega arith)
  get_elem?-append_old (y ∷ xs) x zero lt = refl
  get_elem?-append_old (y ∷ xs) x (suc i) lt = get_elem?-append_old xs x i (omega arith)

  pub get_elem?_lt : (xs : List A) (i : ℕ) (a : A) → get_elem? xs i ≡ some a → i < length xs
  get_elem?_lt [] i a e = absurd (none≢some e)
    where
      none≢some : {x : A} → Option.none ≢ some x
      none≢some e = cc
  get_elem?_lt (x ∷ xs) zero a e = omega arith
  get_elem?_lt (x ∷ xs) (suc i) a e = omega (arith, get_elem?_lt xs i a e)

module _ {T R : Type 0} where
  -- A node is at its number; the children of a node are the nodes that have it as their parent, and come
  -- after it; the roots are the nodes without a parent.
  pub record IsTree (t : DeviceTree T R) : Type 0 where
    pub numbered : (i : ℕ) (n : DeviceNode T R) → get_elem? t.nodes i ≡ some n → n.id ≡ i
    pub below :
        (i p : ℕ) (n : DeviceNode T R)
        → get_elem? t.nodes i ≡ some n
        → n.parent ≡ some p
        → (p < i) × (m : DeviceNode T R) × (get_elem? t.nodes p ≡ some m) × In i m.children
    pub above :
        (i c : ℕ) (n : DeviceNode T R)
        → get_elem? t.nodes i ≡ some n
        → In c n.children
        → (m : DeviceNode T R) × (get_elem? t.nodes c ≡ some m) × (m.parent ≡ some i)
    pub listed :
        (i : ℕ) (n : DeviceNode T R) → get_elem? t.nodes i ≡ some n → n.parent ≡ none → In i t.roots
    pub free :
        (i : ℕ)
        → In i t.roots
        → (n : DeviceNode T R) × (get_elem? t.nodes i ≡ some n) × (n.parent ≡ none)

  -- What `add_device` makes of a tree: a node behind the others, a child of its parent or a root.
  pub record Added (parent : Option ℕ) (t t' : DeviceTree T R) : Type 0 where
    pub node : DeviceNode T R
    pub here : get_elem? t'.nodes (length t.nodes) ≡ some node
    pub number : node.id ≡ length t.nodes
    pub its_parent : node.parent ≡ parent
    pub childless : node.children ≡ []
    pub old :
        (i : ℕ) (n : DeviceNode T R)
        → get_elem? t.nodes i ≡ some n
        → (n' : DeviceNode T R) × (get_elem? t'.nodes i ≡ some n')
          × (n'.id ≡ n.id)
          × (n'.parent ≡ n.parent)
          × ((c : ℕ)
              → In c n'.children ↔ (In c n.children ⊎ ((c ≡ length t.nodes) × (parent ≡ some i))))
    pub few : length t'.nodes ≡ suc (length t.nodes)
    pub the_roots :
        (c : ℕ) → In c t'.roots ↔ (In c t.roots ⊎ ((c ≡ length t.nodes) × (parent ≡ none)))
