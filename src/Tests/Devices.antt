-- ===== src/Tests/Devices.antt =====
-- Inputs for Devices: a bus, and a device on it.
use mars.Prelude.{ℕ, subst, ◌≡◌, refl, sym, ◌∙◌, ◌≢◌, Option, none, some, [], ◌∷◌, arith}
use mars.Prelude.{Option}
use mars.Devices.{
  DeviceTree, pci_host_bridge, other_device, fundamental, regular, new_tree, add_device, attach,
}
use mars.Devices.Tree.{IsTree, Added}
use mars.Devices.Keeps.{add_device-Added}

empty-IsTree : IsTree (new_tree {T = ℕ} {R = ℕ})
empty-IsTree = record {
  numbered = λ i n e. absurd (nothing e);
  below = λ i p n e up. absurd (nothing e);
  above = λ i c n e child. absurd (nothing e);
  listed = λ i n e up. absurd (nothing e);
  free = λ i root. absurd root;
}
  where
    nothing : {A : Type 0} {x : A} → Option.none ≢ some x
    nothing e = cc

abbrev bus : DeviceTree ℕ ℕ
bus = record {
  nodes =
      record {
        id = 0;
        priority = fundamental;
        parent = none;
        class = pci_host_bridge;
        compatible = 7 ∷ [];
        resources = [];
        children = [];
      }
      ∷ [];
  roots = 0 ∷ [];
}

bus_is_added :
    add_device none pci_host_bridge (7 ∷ []) [] fundamental (new_tree {T = ℕ} {R = ℕ})
    ≡ some (0, bus)
unfolding add_device attach
bus_is_added = refl

bus-IsTree : IsTree bus
bus-IsTree =
    let (t', added, its, is_tree) =
      add_device-Added none pci_host_bridge (7 ∷ []) [] fundamental (new_tree {T = ℕ} {R = ℕ})
        empty-IsTree tt in
    subst IsTree (same (sym added ∙ bus_is_added)) is_tree
  where
    same :
        {t t' : DeviceTree ℕ ℕ} {i : ℕ}
        → ◌≡◌ {A = Option (ℕ × DeviceTree ℕ ℕ)} (some (i, t)) (some (i, t'))
        → t ≡ t'
    same e = cc

add_device-Added_example :
    (t' : DeviceTree ℕ ℕ) × (add_device (some 0) other_device (8 ∷ []) (9 ∷ []) regular bus
      ≡ some (1, t'))
    × Added (some 0) bus t'
    × IsTree t'
add_device-Added_example =
    add_device-Added (some 0) other_device (8 ∷ []) (9 ∷ []) regular bus bus-IsTree (omega arith)
