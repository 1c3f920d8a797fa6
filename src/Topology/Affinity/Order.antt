-- ===== src/Topology/Affinity/Order.antt =====
-- GetAffinity gives the affinities in the order of NVML.
use aws_efa_examples.Common.{
  ℕ, zero, suc, ◌+◌, ◌≤◌, ◌<◌, ◌≡◌, refl, sym, ap, ◌∙◌, subst, Bool, true, false, some, List, [],
  ◌∷◌, ◌++◌, map, ◌==◌, ==_iff, keep, count, length, Outcome, ok, Exception, assertion, ◌>>=◌,
  ensure, >>=-eq-ok, arith, ok-injective,
}
use aws_efa_examples.Common.{get_elem?}
use native.Mathlib.Nat.{zero-add}
use aws_efa_examples.Topology.{Tree, Numanode}
use aws_efa_examples.Topology.Affinity.{
  Pci, GpuAffinity, is_device, by_index, pair_nodes, get_affinity,
}

module _ (tree_of : ℕ → Tree) (m : List (ℕ × GpuAffinity)) where
  -- The GPUs that are a device.
  abbrev pub matching : Pci → List (ℕ × GpuAffinity)
  matching p = keep (λ e. is_device tree_of p e.0) m

  -- Entry `j` is that of the one GPU that is device `i`.
  abbrev pub Places : (devices : ℕ → Outcome Pci) (i j : ℕ) → List GpuAffinity → Type 0
  Places devices i j affinity =
      (p : Pci) × (e : ℕ × GpuAffinity) × (devices i ≡ ok p)
      × (matching p ≡ e ∷ [])
      × (get_elem? affinity j ≡ some e.1)

module _ (tree_of : ℕ → Tree) (m : List (ℕ × GpuAffinity)) (devices : ℕ → Outcome Pci) where
  Places-cons :
      (i n : ℕ) (p : Pci) (e : ℕ × GpuAffinity) (rest : List GpuAffinity)
      → devices i ≡ ok p
      → matching tree_of m p ≡ e ∷ []
      → ((j : ℕ) → j < n → Places tree_of m devices (i + 1 + j) j rest)
      → (j : ℕ) → j < suc n
      → Places tree_of m devices (i + j) j (e.1 ∷ rest)
  Places-cons i n p e rest dev k ih zero h = (p, e, ap devices here ∙ dev, k, refl)
    where
      here : i + 0 ≡ i
      here = omega arith
  Places-cons i n p e rest dev k ih (suc j) h =
      let (q, f, d, l, g) = ih j (omega arith) in (q, f, ap devices there ∙ d, l, g)
    where
      there : i + suc j ≡ i + 1 + j
      there = omega arith

  -- At most one entry for each device; if there are as many as devices, each is at its index.
  abbrev Placed : (i n : ℕ) → List GpuAffinity → Type 0
  Placed i n affinity =
      (length affinity ≤ n)
      × (n ≤ length affinity → (j : ℕ) → j < n → Places tree_of m devices (i + j) j affinity)

  place :
      (i n : ℕ) (p : Pci) (rest affinity : List GpuAffinity)
      → length (matching tree_of m p) ≤ 1
      → devices i ≡ ok p
      → map (λ e. e.1) (matching tree_of m p) ++ rest ≡ affinity
      → Placed (i + 1) n rest
      → (ks : List (ℕ × GpuAffinity)) → matching tree_of m p ≡ ks
      → Placed i (suc n) affinity
  place i n p rest affinity few dev whole (short, ih) [] k =
      let same = rw k at whole in
      (omega (arith, ap length same), λ full j h. absurd (omega (arith, ap length same)))
  place i n p rest affinity few dev whole (short, ih) (e ∷ []) k =
      let longer = rw k at whole in
      (
        omega (arith, ap length longer),
        λ full j h.
            subst (λ (l : List GpuAffinity). Places tree_of m devices (i + j) j l) longer
              (Places-cons i n p e rest dev k (ih (omega (arith, ap length longer))) j h),
      )
  place i n p rest affinity few dev whole (short, ih) (e ∷ f ∷ ks) k =
      absurd (omega (arith, ap length k))

  by_index-Placed :
      ((p : Pci) → length (matching tree_of m p) ≤ 1)
      → (i n : ℕ) (affinity : List GpuAffinity) → by_index tree_of devices i n m ≡ ok affinity
      → Placed i n affinity
  unfolding by_index
  by_index-Placed unique i zero affinity e =
      (omega (arith, ap length (ok-injective e)), λ full j h. absurd (omega arith))
  by_index-Placed unique i (suc n) affinity e =
      let (p, dev, more) = >>=-eq-ok (devices i) _ e in
      let (rest, tail, whole) = >>=-eq-ok (by_index tree_of devices (i + 1) n m) _ more in
      place i n p rest affinity (unique p) dev (ok-injective whole)
        (by_index-Placed unique (i + 1) n rest tail) (matching tree_of m p) refl

ensure-eq-ok : (t : Bool) (x : Exception) {u : Unit {0}} → ensure t x ≡ ok u → t ≡ true
ensure-eq-ok true x h = refl
ensure-eq-ok false x h = ground arith

-- Where GetAffinity returns, and no NVML device is two of the GPUs that hwloc shows, the affinity at
-- index i is that of the one GPU that is NVML's device i, for each i below the number of devices.
pub get_affinity-by_index :
    (openfabrics : ℕ) (tree_of : ℕ → Tree) (info_map : List (Pci × ℕ)) (nodes : List Numanode)
    (count : Outcome ℕ) (devices : ℕ → Outcome Pci) (n : ℕ) (gpuloc : List (ℕ × GpuAffinity))
    (affinity : List GpuAffinity)
    → count ≡ ok n
    → pair_nodes openfabrics tree_of info_map nodes [] ≡ ok gpuloc
    → ((p : Pci) → length (matching tree_of gpuloc p) ≤ 1)
    → get_affinity openfabrics tree_of info_map nodes count devices ≡ ok affinity
    → (length affinity ≡ n) × ((i : ℕ) → i < n → Places tree_of gpuloc devices i i affinity)
unfolding get_affinity
get_affinity-by_index openfabrics tree_of info_map nodes count devices n gpuloc affinity c g unique
      e =
    let (_, counted, e1) =
      >>=-eq-ok (ensure (n == length gpuloc) (assertion "count == gpuloc.size()")) _
        (rw (g, c, ◌>>=◌, get_affinity) at e) in
    let (found, ran, e2) = >>=-eq-ok (by_index tree_of devices 0 n gpuloc) _ e1 in
    let (_, complete, e3) =
      >>=-eq-ok
        (ensure (length gpuloc == length found) (assertion "gpuloc.size() == affinity.size()")) _
        e2 in
    let (_, each) = by_index-Placed tree_of gpuloc devices unique 0 n found ran in
    let whole = (==_iff n (length gpuloc)).0 (ensure-eq-ok _ _ counted) in
    let all = (==_iff (length gpuloc) (length found)).0 (ensure-eq-ok _ _ complete) in
    subst
      (λ (l : List GpuAffinity).
        (length l ≡ n) × ((i : ℕ) → i < n → Places tree_of gpuloc devices i i l))
      (ok-injective e3)
      (
        sym (whole ∙ all),
        λ i h.
            subst (λ k. Places tree_of gpuloc devices k i found) (zero-add i)
              (each (omega (arith, whole, all)) i h),
      )
