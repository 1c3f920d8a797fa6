-- ===== src/Topology/Affinity.antt =====
-- src/batch/include/common/gpuloc.h: class GPUloc, which pairs each GPU with the cores of its node and
-- the EFA devices of its bridge, by what hwloc, libfabric and NVML say of the machine. The unordered
-- containers are lists in the order of insertion, which no theorem depends on.
pub mod Order
use aws_efa_examples.Common.{
  ℕ, zero, suc, ◌+◌, ◌-◌, ◌*◌, ◌/◌, ◌%◌, ◌^◌, ◌≤◌, ◌<◌, ◌≡◌, ◌≢◌, ◌⊎◌, ◌↔◌, refl, sym, ap, ◌∙◌,
  subst, Bool, true, false, not, ◌&&◌, ◌||◌, inl, inr, Option, none, some, List, [], ◌∷◌, ◌++◌, map,
  append_assoc, append-nil, map-append, ltb, leb, ◌==◌, if◌then◌else◌, Bool-cases, Option-cases,
  ==_iff, ==-self, ne→==, le→leb, leb→le, lt→ltb, le→ltb, keep, filter_map, concat_map, All,
  All-append, count, count-append, length, length-append, length-map, take, drop, Outcome, ok,
  throw, undefined, Exception, check_failed, assertion, invalid_argument, runtime_error,
  out_of_range, ◌>>=◌, ◌>>◌, ensure, require, >>=-eq-ok, lookup, emplace, erase, contains, add,
  remove, arith,
}
use aws_efa_examples.Topology.{
  Kind, cpu_package, numa_node, core, pci_device, processing_unit, other, bridge, Object, Tree,
  node, Trees, no_child, child, root, Numanode, is_pu, is_pci,
}

abbrev pub nvidia_vendor_id : ℕ
nvidia_vendor_id = 0x10de

-- HWLOC_OBJ_OSDEV_OPENFABRICS, of hwloc, is the argument `openfabrics`.
unfoldable mutual
  -- IsOSDevType and its four loops.
  pub has_osdev : (type : ℕ) → Tree → Bool
  has_osdev type (node o memory normal io misc) =
      (o.osdev_type == type)
      || (has_osdev_below type false memory
          || (has_osdev_below type false normal
              || (has_osdev_below type true io || has_osdev_below type true misc)))

  pub has_osdev_below : (type : ℕ) (all : Bool) → Trees → Bool
  has_osdev_below type all no_child = false
  has_osdev_below type all (child t ts) =
      ((all || not (is_pu ((root t).kind))) && has_osdev type t) || has_osdev_below type all ts

-- IsGPU and IsEFA.
unfoldable pub is_gpu : Object → Bool
is_gpu o = is_pci (o.kind) && ((o.class_id / 2 ^ 8 == 0x03) && (o.vendor_id == nvidia_vendor_id))

unfoldable pub is_efa : (openfabrics : ℕ) → Tree → Bool
unfolding has_osdev
is_efa openfabrics t = is_pci ((root t).kind) && has_osdev openfabrics t

-- GPUloc::pci_type.
pub record Pci : Type 0 where
  pub domain : ℕ
  pub bus : ℕ
  pub dev : ℕ
  pub func : ℕ

abbrev pub same_pci : Pci → Pci → Bool
same_pci p q =
    (p.domain == q.domain) && ((p.bus == q.bus) && ((p.dev == q.dev) && (p.func == q.func)))

abbrev pub pci_of : Object → Pci
pci_of o = record { domain = o.domain; bus = o.bus; dev = o.dev; func = o.func }

-- A struct fi_info of the list, by its address: its NIC's bus attributes, if it has a NIC on PCI.
pub record FiInfo : Type 0 where
  pub address : ℕ
  pub nic : Bool
  pub on_pci : Bool
  pub pci : Pci

-- `at` and `emplace` of the map from PCI addresses.
unfoldable pub get_fi_info : Pci → List (Pci × ℕ) → Outcome ℕ
get_fi_info p [] = throw out_of_range
get_fi_info p ((q, i) ∷ m) = if same_pci q p then ok i else get_fi_info p m

unfoldable pub emplace_pci : Pci → ℕ → List (Pci × ℕ) → List (Pci × ℕ)
emplace_pci p i [] = (p, i) ∷ []
emplace_pci p i ((q, j) ∷ m) = if same_pci q p then (q, j) ∷ m else (q, j) ∷ emplace_pci p i m

-- GetPCIInfoMap, over the list of EFA's fi_info.
unfoldable pub pci_info_map : List FiInfo → List (Pci × ℕ) → Outcome (List (Pci × ℕ))
unfolding emplace_pci
pci_info_map [] m = ok m
pci_info_map (p ∷ ps) m = do
  _ ← ensure (p.nic) (assertion "!!nic")
  _ ← ensure (p.on_pci) (assertion "nic->bus_attr and nic->bus_attr->bus_type == FI_BUS_PCI")
  pci_info_map ps (emplace_pci (p.pci) (p.address) m)

-- GPUAffinity.
pub record GpuAffinity : Type 0 where
  pub gpu : ℕ
  pub numanode : ℕ
  pub cores : List ℕ
  pub efas : List (ℕ × ℕ)

-- `gpuloc[gpu] = …`.
unfoldable pub assign : {A : Type 0} → ℕ → A → List (ℕ × A) → List (ℕ × A)
assign k a [] = (k, a) ∷ []
assign k a ((j, b) ∷ m) = if j == k then (j, a) ∷ m else (j, b) ∷ assign k a m

-- hwloc's objects by their addresses.
module _ (tree_of : ℕ → Tree) where
  -- std::sort of the cores by their logical index.
  unfoldable pub insert_core : ℕ → List ℕ → List ℕ
  insert_core c [] = c ∷ []
  insert_core c (d ∷ ds) =
      if ltb ((root (tree_of d)).logical_index) ((root (tree_of c)).logical_index)
      then d ∷ insert_core c ds
      else c ∷ d ∷ ds

  unfoldable pub sort_cores : List ℕ → List ℕ
  unfolding insert_core
  sort_cores [] = []
  sort_cores (c ∷ cs) = insert_core c (sort_cores cs)

  -- `for (auto &gpu : gpus)`.
  unfoldable pub assign_gpus :
      Numanode → List (ℕ × ℕ) → List ℕ → List (ℕ × GpuAffinity) → List (ℕ × GpuAffinity)
  unfolding assign sort_cores
  assign_gpus numa efas [] m = m
  assign_gpus numa efas (g ∷ gs) m = assign_gpus numa efas gs (
      assign g
        (record { gpu = g; numanode = numa.numanode; cores = sort_cores (numa.cores); efas = efas })
        m)

  -- Whether a GPU is the device that NVML gives.
  abbrev pub is_device : Pci → ℕ → Bool
  is_device p g =
      let o = root (tree_of g) in
      (o.domain == p.domain) && ((o.bus == p.bus) && ((o.dev == p.dev) && (o.func == 0)))

  -- The loop over NVML's devices, `n` of them from `i` on; `devices` is what NVML says of each.
  unfoldable pub by_index :
      {A : Type 0} (devices : ℕ → Outcome Pci) (i n : ℕ) → List (ℕ × A) → Outcome (List A)
  by_index devices i zero m = ok []
  by_index devices i (suc n) m = do
    p ← devices i
    rest ← by_index devices (i + 1) n m
    ok (map (λ e. e.1) (keep (λ e. is_device p (e.0)) m) ++ rest)

-- With them, the map of the fi_info.
module _ (openfabrics : ℕ) (tree_of : ℕ → Tree) (info_map : List (Pci × ℕ)) where
  -- The loop over the devices of a bridge.
  unfoldable pub sort_devices :
      List ℕ → (gpus : List ℕ) (efas : List (ℕ × ℕ)) → Outcome (List ℕ × List (ℕ × ℕ))
  unfolding is_gpu is_efa get_fi_info
  sort_devices [] gpus efas = ok (gpus, efas)
  sort_devices (p ∷ ps) gpus efas =
      if is_gpu (root (tree_of p))
      then sort_devices ps (gpus ++ p ∷ []) efas
      else if is_efa openfabrics (tree_of p)
      then (get_fi_info (pci_of (root (tree_of p))) info_map >>= λ i.
          sort_devices ps gpus (efas ++ (p, i) ∷ []))
      else sort_devices ps gpus efas

  -- The loops over the bridges of a node, and over the nodes.
  unfoldable pub pair_bridges :
      Numanode → List (ℕ × List ℕ) → List (ℕ × GpuAffinity) → Outcome (List (ℕ × GpuAffinity))
  unfolding sort_devices assign_gpus
  pair_bridges numa [] m = ok m
  pair_bridges numa ((_, ps) ∷ bs) m = do
    (gpus, efas) ← sort_devices ps [] []
    pair_bridges numa bs (assign_gpus tree_of numa efas gpus m)

  unfoldable pub pair_nodes :
      List Numanode → List (ℕ × GpuAffinity) → Outcome (List (ℕ × GpuAffinity))
  unfolding pair_bridges
  pair_nodes [] m = ok m
  pair_nodes (numa ∷ ns) m = pair_bridges numa (numa.bridges) m >>= λ m'. pair_nodes ns m'

  -- GetAffinity.
  unfoldable pub get_affinity :
      List Numanode → (count : Outcome ℕ) (devices : ℕ → Outcome Pci) → Outcome (List GpuAffinity)
  unfolding pair_nodes by_index
  get_affinity nodes count devices = do
    gpuloc ← pair_nodes nodes []
    n ← count
    _ ← ensure (n == length gpuloc) (assertion "count == gpuloc.size()")
    affinity ← by_index tree_of devices 0 n gpuloc
    _ ← ensure (length gpuloc == length affinity) (assertion "gpuloc.size() == affinity.size()")
    ok affinity
