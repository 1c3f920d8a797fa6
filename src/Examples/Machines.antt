-- ===== src/Examples/Machines.antt =====
-- A machine with one GPU and one EFA device below one host bridge.
use aws_efa_examples.Common.{
  ℕ, ◌≤◌, ◌<◌, ◌≡◌, refl, true, false, List, [], ◌∷◌, ◌==◌, if◌then◌else◌, length, ok, arith,
  contains,
}
use aws_efa_examples.Topology.{
  Kind, cpu_package, numa_node, core, pci_device, other, bridge, Object, Tree, node, no_child,
  child, Numanode, traverse,
}
use aws_efa_examples.Topology.Visits.{nearest, visits}
use aws_efa_examples.Topology.Bridges.{found, visited, found-traverse}
use aws_efa_examples.Topology.Affinity.{Pci, GpuAffinity, pair_nodes, get_affinity}
use aws_efa_examples.Topology.Stages.{bare_get_affinity}
use aws_efa_examples.Topology.Stages.Agreement.{forget, get_affinity-forget}
use aws_efa_examples.Topology.Affinity.Order.{matching, Places, get_affinity-by_index}

abbrev object : (address : ℕ) → Kind → (osdev_type bus class_id : ℕ) → Object
object a k o b c = record {
  address = a;
  kind = k;
  logical_index = 0;
  osdev_type = o;
  domain = 0;
  bus = b;
  dev = 0;
  func = 0;
  class_id = c;
  vendor_id = 0x10de;
}

abbrev leaf : Object → Tree
leaf o = node o no_child no_child no_child no_child

abbrev gpu : Tree
gpu = leaf (object 5 pci_device 0 16 0x302)

-- 3 is the type of OpenFabrics devices.
abbrev efa : Tree
efa =
    node (object 6 pci_device 0 17 0x200) no_child no_child
      (child (leaf (object 7 other 3 0 0)) no_child) no_child

abbrev host_bridge : Tree
host_bridge =
    node (object 4 (bridge false) 0 0 0) no_child no_child (child gpu (child efa no_child)) no_child

abbrev machine : Tree
machine =
    node (object 1 cpu_package 0 0 0) (child (leaf (object 2 numa_node 0 0 0)) no_child)
      (child (leaf (object 3 core 0 0 0)) no_child) (child host_bridge no_child) no_child

abbrev nodes : List Numanode
nodes = record { numanode = 2; cores = 3 ∷ []; bridges = (4, 5 ∷ 6 ∷ []) ∷ [] } ∷ []

traverse-machine : traverse machine 0 [] ≡ ok nodes
unfolding traverse contains
traverse-machine = refl

found-traverse_example : found 4 5 nodes ≡ true
unfolding visits visited nearest
found-traverse_example = found-traverse machine 4 5 0 [] nodes traverse-machine

abbrev tree_of : ℕ → Tree
tree_of a = if a == 5 then gpu else if a == 6 then efa else leaf (object a core 0 0 0)

abbrev pci : ℕ → Pci
pci b = record { domain = 0; bus = b; dev = 0; func = 0 }

-- The fi_info at 70 is that of the EFA device.
abbrev info_map : List (Pci × ℕ)
info_map = (pci 17, 70) ∷ []

abbrev affinity_5 : GpuAffinity
affinity_5 = record { gpu = 5; numanode = 2; cores = 3 ∷ []; efas = (6, 70) ∷ [] }

paired : pair_nodes 3 tree_of info_map nodes [] ≡ ok ((5, affinity_5) ∷ [])
unfolding pair_nodes
paired = refl

affinity_of_machine :
    get_affinity 3 tree_of info_map nodes (ok 1) (λ i. ok (pci 16)) ≡ ok (affinity_5 ∷ [])
unfolding get_affinity
affinity_of_machine = refl

one_gpu : (p : Pci) → length (matching tree_of ((5, affinity_5) ∷ []) p) ≤ 1
one_gpu p = ground arith

get_affinity-by_index_example :
    (length (affinity_5 ∷ []) ≡ 1)
    × ((i : ℕ)
        → i < 1
        → Places tree_of ((5, affinity_5) ∷ []) (λ i. ok (pci 16)) i i (affinity_5 ∷ []))
get_affinity-by_index_example =
    get_affinity-by_index 3 tree_of info_map nodes (ok 1) (λ i. ok (pci 16)) 1
      ((5, affinity_5) ∷ []) (affinity_5 ∷ []) refl paired one_gpu affinity_of_machine

get_affinity-forget_example :
    bare_get_affinity 3 tree_of nodes (ok 1) (λ i. ok (pci 16)) ≡ ok (forget affinity_5 ∷ [])
get_affinity-forget_example =
    get_affinity-forget 3 tree_of info_map nodes (ok 1) (λ i. ok (pci 16)) (affinity_5 ∷ [])
      affinity_of_machine
