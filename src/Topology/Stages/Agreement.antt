-- ===== src/Topology/Stages/Agreement.antt =====
-- GetAffinity of src/batch against that of src/nvml: the same, but for the fi_info of each EFA device.
use aws_efa_examples.Common.{
  ℕ, zero, suc, ◌+◌, ◌==◌, ◌≡◌, ◌∙◌, refl, sym, ap, inl, inr, Bool-cases, List, [], ◌∷◌, ◌++◌, map,
  map-append, keep, length, length-map, Outcome, ok, >>=-eq-ok, ok-injective, ensure,
}
use aws_efa_examples.Topology.{Tree, root, Numanode}
use aws_efa_examples.Topology.Affinity.{
  is_gpu, is_efa, Pci, GpuAffinity, assign, sort_cores, is_device, by_index, pci_of, get_fi_info,
  sort_devices, assign_gpus, pair_bridges, pair_nodes, get_affinity,
}
use aws_efa_examples.Topology.Stages.{
  BareAffinity, bare_sort_devices, bare_assign_gpus, bare_pair_bridges, bare_pair_nodes,
  bare_get_affinity,
}

-- Without the fi_info.
abbrev pub devices_of : List (ℕ × ℕ) → List ℕ
devices_of = map (λ e. e.0)

abbrev pub forget : GpuAffinity → BareAffinity
forget a = record {
  gpu = a.gpu;
  numanode = a.numanode;
  cores = a.cores;
  efas = devices_of (a.efas);
}

abbrev pub forget_entry : ℕ × GpuAffinity → ℕ × BareAffinity
forget_entry e = (e.0, forget (e.1))

assign-forget :
    (k : ℕ) (a : GpuAffinity) (m : List (ℕ × GpuAffinity))
    → map forget_entry (assign k a m) ≡ assign k (forget a) (map forget_entry m)
unfolding assign
assign-forget k a [] = refl
assign-forget k a ((j, b) ∷ m) = elim (Bool-cases (j == k)) [
  | inl e ↦ rw e refl
  | inr e ↦ rw e (ap (λ l. (j, forget b) ∷ l) (assign-forget k a m))
]

module _ (openfabrics : ℕ) (tree_of : ℕ → Tree) (info_map : List (Pci × ℕ)) where
  sort_devices-forget :
      (ps gpus : List ℕ) (efas : List (ℕ × ℕ)) (gpus' : List ℕ) (efas' : List (ℕ × ℕ))
      → sort_devices openfabrics tree_of info_map ps gpus efas ≡ ok (gpus', efas')
      → bare_sort_devices openfabrics tree_of ps gpus (devices_of efas) ≡ (gpus', devices_of efas')
  unfolding sort_devices bare_sort_devices
  sort_devices-forget [] gpus efas gpus' efas' e =
      ap (λ (r : List ℕ × List (ℕ × ℕ)). (r.0, devices_of (r.1))) (ok-injective e)
  sort_devices-forget (p ∷ ps) gpus efas gpus' efas' e =
      elim (Bool-cases (is_gpu (root (tree_of p)))) [
        | inl g ↦ rw g (sort_devices-forget ps (gpus ++ p ∷ []) efas gpus' efas' (simp g at e))
        | inr g ↦ rw g (elim (Bool-cases (is_efa openfabrics (tree_of p))) [
          | inl f ↦
              let (i, got, more) =
                >>=-eq-ok (get_fi_info (pci_of (root (tree_of p))) info_map) _ (simp (g, f) at e) in
              rw f (
                ap (λ l. bare_sort_devices openfabrics tree_of ps gpus l)
                  (sym (map-append (λ (e : ℕ × ℕ). e.0) efas ((p, i) ∷ [])))
                ∙ sort_devices-forget ps gpus (efas ++ (p, i) ∷ []) gpus' efas' more)
          | inr f ↦ rw f (sort_devices-forget ps gpus efas gpus' efas' (simp (g, f) at e))
        ])
      ]

  assign_gpus-forget :
      (numa : Numanode) (efas : List (ℕ × ℕ)) (gs : List ℕ) (m : List (ℕ × GpuAffinity))
      → map forget_entry (assign_gpus tree_of numa efas gs m)
        ≡ bare_assign_gpus openfabrics tree_of numa (devices_of efas) gs (map forget_entry m)
  unfolding assign_gpus bare_assign_gpus
  assign_gpus-forget numa efas [] m = refl
  assign_gpus-forget numa efas (g ∷ gs) m =
      let a : GpuAffinity = record {
        gpu = g;
        numanode = numa.numanode;
        cores = sort_cores tree_of (numa.cores);
        efas = efas;
      } in
      assign_gpus-forget numa efas gs (assign g a m)
      ∙ ap (λ l. bare_assign_gpus openfabrics tree_of numa (devices_of efas) gs l)
          (assign-forget g a m)

  pair_bridges-forget :
      (numa : Numanode) (bs : List (ℕ × List ℕ)) (m m' : List (ℕ × GpuAffinity))
      → pair_bridges openfabrics tree_of info_map numa bs m ≡ ok m'
      → bare_pair_bridges openfabrics tree_of numa bs (map forget_entry m) ≡ map forget_entry m'
  unfolding pair_bridges bare_pair_bridges
  pair_bridges-forget numa [] m m' e = ap (map forget_entry) (ok-injective e)
  pair_bridges-forget numa ((b, ps) ∷ bs) m m' e =
      let ((gpus, efas), sorted, more) =
        >>=-eq-ok (sort_devices openfabrics tree_of info_map ps [] []) _ e in
      rw (sort_devices-forget ps [] [] gpus efas sorted) (
        rw⁻¹ (assign_gpus-forget numa efas gpus m)
          (pair_bridges-forget numa bs (assign_gpus tree_of numa efas gpus m) m' more))

  pair_nodes-forget :
      (ns : List Numanode) (m m' : List (ℕ × GpuAffinity))
      → pair_nodes openfabrics tree_of info_map ns m ≡ ok m'
      → bare_pair_nodes openfabrics tree_of ns (map forget_entry m) ≡ map forget_entry m'
  unfolding pair_nodes bare_pair_nodes
  pair_nodes-forget [] m m' e = ap (map forget_entry) (ok-injective e)
  pair_nodes-forget (numa ∷ ns) m m' e =
      let (m1, paired, more) =
        >>=-eq-ok (pair_bridges openfabrics tree_of info_map numa (numa.bridges) m) _ e in
      rw (pair_bridges-forget numa (numa.bridges) m m1 paired) (pair_nodes-forget ns m1 m' more)

  matching-forget :
      (p : Pci) (m : List (ℕ × GpuAffinity))
      → map (λ e. e.1) (keep (λ e. is_device tree_of p (e.0)) (map forget_entry m))
        ≡ map forget (map (λ e. e.1) (keep (λ e. is_device tree_of p (e.0)) m))
  matching-forget p [] = refl
  matching-forget p ((k, a) ∷ m) = elim (Bool-cases (is_device tree_of p k)) [
    | inl d ↦ rw d (ap (λ l. forget a ∷ l) (matching-forget p m))
    | inr d ↦ rw d (matching-forget p m)
  ]

  by_index-forget :
      (devices : ℕ → Outcome Pci) (i n : ℕ) (m : List (ℕ × GpuAffinity))
      (affinity : List GpuAffinity)
      → by_index tree_of devices i n m ≡ ok affinity
      → by_index tree_of devices i n (map forget_entry m) ≡ ok (map forget affinity)
  unfolding by_index
  by_index-forget devices i zero m affinity e = ap (λ l. ok (map forget l)) (ok-injective e)
  by_index-forget devices i (suc n) m affinity e =
      let (p, given, e1) = >>=-eq-ok (devices i) _ e in
      let (rest, found, e2) = >>=-eq-ok (by_index tree_of devices (i + 1) n m) _ e1 in
      let mine =
        map (λ (e : ℕ × GpuAffinity). e.1)
          (keep (λ (e : ℕ × GpuAffinity). is_device tree_of p (e.0)) m) in
      rw (given, by_index-forget devices (i + 1) n m rest found, matching-forget p m)
        (ap ok (sym (map-append forget mine rest)) ∙ ap (λ l. ok (map forget l)) (ok-injective e2))

-- Where GetAffinity of src/batch returns, that of src/nvml returns the same for the same machine, less
-- the fi_info of each EFA device.
pub get_affinity-forget :
    (openfabrics : ℕ) (tree_of : ℕ → Tree) (info_map : List (Pci × ℕ)) (nodes : List Numanode)
    (count : Outcome ℕ) (devices : ℕ → Outcome Pci) (affinity : List GpuAffinity)
    → get_affinity openfabrics tree_of info_map nodes count devices ≡ ok affinity
    → bare_get_affinity openfabrics tree_of nodes count devices ≡ ok (map forget affinity)
unfolding get_affinity bare_get_affinity
get_affinity-forget openfabrics tree_of info_map nodes count devices affinity e =
    let (gpuloc, paired, e1) = >>=-eq-ok (pair_nodes openfabrics tree_of info_map nodes []) _ e in
    let (n, counted, e2) = >>=-eq-ok count _ e1 in
    let (_, same, e3) = >>=-eq-ok (ensure (n == length gpuloc) _) _ e2 in
    let (found, ran, e4) = >>=-eq-ok (by_index tree_of devices 0 n gpuloc) _ e3 in
    let (_, whole, e5) = >>=-eq-ok (ensure (length gpuloc == length found) _) _ e4 in
    rw
      (
        pair_nodes-forget openfabrics tree_of info_map nodes [] gpuloc paired,
        counted,
        length-map forget_entry gpuloc,
        same,
        by_index-forget openfabrics tree_of info_map devices 0 n gpuloc found ran,
        length-map forget found,
        whole,
      )
      (ap (λ l. ok (map forget l)) (ok-injective e5))
