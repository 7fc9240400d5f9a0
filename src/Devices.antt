-- ===== src/Devices.antt =====
-- klib/src/hardware/device.rs: the tree of devices. `T` is the type of texts, and `R` of resources.
pub mod Tree
pub mod Adding
pub mod Keeps
use mars.Prelude.{
  ℕ, Bool, Option, none, some, List, [], ◌∷◌, ◌++◌, ◌==◌, if◌then◌else◌, length, get_elem?, set,
}

pub data DeviceInitPriority : Type 0 where
  regular : DeviceInitPriority
  fundamental : DeviceInitPriority

-- A `CpuTopologyId` is its number.
pub data DeviceClass : Type 0 where
  cpu : ℕ → ℕ → DeviceClass
  uart : DeviceClass
  timer : DeviceClass
  gic_v3 : ℕ → DeviceClass
  pci_host_bridge : DeviceClass
  other_device : DeviceClass

-- The number of the variant, which `discriminant` compares.
abbrev pub discriminant : DeviceClass → ℕ
discriminant (cpu id acpi_uid) = 0
discriminant uart = 1
discriminant timer = 2
discriminant (gic_v3 redistributor_count) = 3
discriminant pci_host_bridge = 4
discriminant other_device = 5

-- A `DeviceId` is its number.
pub record DeviceNode (T R : Type 0) : Type 0 where
  pub id : ℕ
  pub priority : DeviceInitPriority
  pub parent : Option ℕ
  pub class : DeviceClass
  pub compatible : List T
  pub resources : List R
  pub children : List ℕ

pub record DeviceTree (T R : Type 0) : Type 0 where
  pub nodes : List (DeviceNode T R)
  pub roots : List ℕ

abbrev pub new_tree : {T R : Type 0} → DeviceTree T R
new_tree = record { nodes = []; roots = [] }

module _ {T R : Type 0} where
  abbrev pub add_child : ℕ → DeviceNode T R → DeviceNode T R
  add_child id node = record node { children = node.children ++ id ∷ [] }

  -- The last lines of `add_device`; `none` is an index out of range.
  unfoldable pub attach : Option ℕ → ℕ → DeviceTree T R → Option (DeviceTree T R)
  attach none id t = some (record t { roots = t.roots ++ id ∷ [] })
  attach (some p) id t = elim (get_elem? t.nodes p) [
    | none ↦ none
    | some node ↦ some (record t { nodes = set t.nodes p (add_child id node) })
  ]

  unfoldable pub add_device :
      Option ℕ
      → DeviceClass
      → List T
      → List R
      → DeviceInitPriority
      → DeviceTree T R
      → Option (ℕ × DeviceTree T R)
  add_device parent class compatible resources priority t =
      let id = length t.nodes in
      let node : DeviceNode T R = record {
        id = id;
        priority = priority;
        parent = parent;
        class = class;
        compatible = compatible;
        resources = resources;
        children = [];
      } in
      elim (attach parent id (record t { nodes = t.nodes ++ node ∷ [] })) [
        | none ↦ none
        | some t' ↦ some (id, t')
      ]

  abbrev pub get : DeviceTree T R → ℕ → Option (DeviceNode T R)
  get t id = get_elem? t.nodes id

  -- `filter` by the variant.
  unfoldable pub of_class : DeviceClass → List (DeviceNode T R) → List (DeviceNode T R)
  of_class class [] = []
  of_class class (node ∷ nodes) =
      let rest = of_class class nodes in
      if discriminant node.class == discriminant class then node ∷ rest else rest

  unfoldable pub iter_class : DeviceTree T R → DeviceClass → List (DeviceNode T R)
  unfolding of_class
  iter_class t class = of_class class t.nodes
