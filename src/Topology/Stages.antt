-- ===== src/Topology/Stages.antt =====
-- The earlier stages of GPUloc: src/gpuloc, whose map has each GPU of hwloc, and src/nvml, which orders it
-- by NVML's index. Neither looks at libfabric. What they share with src/batch is the same text there.
pub mod Agreement
use aws_efa_examples.Common.{
  ℕ, ◌==◌, Bool, true, false, if◌then◌else◌, List, [], ◌∷◌, ◌++◌, length, Outcome, ok, ◌>>=◌,
  ensure, assertion,
}
use aws_efa_examples.Topology.{Tree, root, Numanode}
use aws_efa_examples.Topology.Affinity.{is_gpu, is_efa, Pci, assign, sort_cores, by_index}

-- GPUAffinity of these stages.
pub record BareAffinity : Type 0 where
  pub gpu : ℕ
  pub numanode : ℕ
  pub cores : List ℕ
  pub efas : List ℕ

module _ (openfabrics : ℕ) (tree_of : ℕ → Tree) where
  -- The loop over the devices of a bridge.
  unfoldable pub bare_sort_devices : List ℕ → (gpus efas : List ℕ) → List ℕ × List ℕ
  unfolding is_gpu is_efa
  bare_sort_devices [] gpus efas = (gpus, efas)
  bare_sort_devices (p ∷ ps) gpus efas =
      if is_gpu (root (tree_of p))
      then bare_sort_devices ps (gpus ++ p ∷ []) efas
      else if is_efa openfabrics (tree_of p)
      then bare_sort_devices ps gpus (efas ++ p ∷ [])
      else bare_sort_devices ps gpus efas

  -- `for (auto &gpu : gpus)`.
  unfoldable pub bare_assign_gpus :
      Numanode → List ℕ → List ℕ → List (ℕ × BareAffinity) → List (ℕ × BareAffinity)
  unfolding assign sort_cores
  bare_assign_gpus numa efas [] m = m
  bare_assign_gpus numa efas (g ∷ gs) m = bare_assign_gpus numa efas gs (
      assign g
        (record {
          gpu = g;
          numanode = numa.numanode;
          cores = sort_cores tree_of (numa.cores);
          efas = efas;
        })
        m)

  -- The loops over the bridges of a node, and over the nodes, which are GetAffinity of src/gpuloc.
  unfoldable pub bare_pair_bridges :
      Numanode → List (ℕ × List ℕ) → List (ℕ × BareAffinity) → List (ℕ × BareAffinity)
  unfolding bare_sort_devices bare_assign_gpus
  bare_pair_bridges numa [] m = m
  bare_pair_bridges numa ((_, ps) ∷ bs) m =
      let (gpus, efas) = bare_sort_devices ps [] [] in
      bare_pair_bridges numa bs (bare_assign_gpus numa efas gpus m)

  unfoldable pub bare_pair_nodes : List Numanode → List (ℕ × BareAffinity) → List (ℕ × BareAffinity)
  unfolding bare_pair_bridges
  bare_pair_nodes [] m = m
  bare_pair_nodes (numa ∷ ns) m = bare_pair_nodes ns (bare_pair_bridges numa (numa.bridges) m)

  -- GetAffinity of src/nvml.
  unfoldable pub bare_get_affinity :
      List Numanode → (count : Outcome ℕ) (devices : ℕ → Outcome Pci) → Outcome (List BareAffinity)
  unfolding bare_pair_nodes by_index
  bare_get_affinity nodes count devices = do
    n ← count
    _ ← ensure (n == length (bare_pair_nodes nodes [])) (assertion "count == gpuloc.size()")
    affinity ← by_index tree_of devices 0 n (bare_pair_nodes nodes [])
    _ ←
        ensure (length (bare_pair_nodes nodes []) == length affinity)
          (assertion "gpuloc.size() == affinity.size()")
    ok affinity
