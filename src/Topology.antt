-- ===== src/Topology.antt =====
-- src/batch/include/common/gpuloc.h: the walk of class Hwloc over hwloc's tree of the machine. An
-- object is known by its address; the tree is hwloc's, and an argument.
pub mod Visits
pub mod Bridges
pub mod Affinity
pub mod Stages
use aws_efa_examples.Common.{
  ℕ, zero, suc, ◌+◌, ◌-◌, ◌*◌, ◌/◌, ◌%◌, ◌^◌, ◌≤◌, ◌<◌, ◌≡◌, ◌≢◌, ◌⊎◌, ◌↔◌, refl, sym, ap, ◌∙◌,
  subst, Bool, true, false, not, ◌&&◌, ◌||◌, inl, inr, Option, none, some, List, [], ◌∷◌, ◌++◌, map,
  append_assoc, append-nil, map-append, ltb, leb, ◌==◌, if◌then◌else◌, Bool-cases, Option-cases,
  ==_iff, ==-self, ne→==, le→leb, leb→le, lt→ltb, le→ltb, keep, filter_map, concat_map, All,
  All-append, count, count-append, length, length-append, length-map, take, drop, Outcome, ok,
  throw, undefined, Exception, check_failed, assertion, invalid_argument, runtime_error,
  out_of_range, ◌>>=◌, ◌>>◌, ensure, require, >>=-eq-ok, lookup, emplace, erase, contains, add,
  remove, arith,
}

-- `type` of an object, with the bridge's upstream_type: whether it is PCI.
pub data Kind : Type 0 where
  cpu_package numa_node core pci_device processing_unit other : Kind
  bridge : (upstream_pci : Bool) → Kind

-- What the program reads of an object. `attr` is a union: `osdev_type` is what its first bytes are
-- when they are read as the type of an OS device, whatever the object is.
pub record Object : Type 0 where
  pub address : ℕ
  pub kind : Kind
  pub logical_index : ℕ
  pub osdev_type : ℕ
  pub domain : ℕ
  pub bus : ℕ
  pub dev : ℕ
  pub func : ℕ
  pub class_id : ℕ
  pub vendor_id : ℕ

-- An object with its memory, normal, I/O and misc children.
mutual
  pub data Tree : Type 0 where
    node : Object → (memory normal io misc : Trees) → Tree

  pub data Trees : Type 0 where
    no_child : Trees
    child : Tree → Trees → Trees

abbrev pub root : Tree → Object
root (node o _ _ _ _) = o

-- Numanode; the null pointer is 0.
pub record Numanode : Type 0 where
  pub numanode : ℕ
  pub cores : List ℕ
  pub bridges : List (ℕ × List ℕ)

abbrev pub is_pu : Kind → Bool
is_pu processing_unit = true
is_pu _ = false

abbrev pub is_pci : Kind → Bool
is_pci pci_device = true
is_pci _ = false

-- `numanodes.back()` and a change of it: undefined where there is none.
unfoldable pub change_back : (Numanode → Numanode) → List Numanode → Outcome (List Numanode)
change_back f [] = undefined
change_back f (n ∷ []) = ok (f n ∷ [])
change_back f (n ∷ m ∷ ns) = change_back f (m ∷ ns) >>= λ ns'. ok (n ∷ ns')

-- `bridge[b].emplace(pci)`.
unfoldable pub insert_pci : (b pci : ℕ) → List (ℕ × List ℕ) → List (ℕ × List ℕ)
unfolding add
insert_pci b pci [] = (b, pci ∷ []) ∷ []
insert_pci b pci ((j, ps) ∷ m) =
    if j == b then (j, add pci ps) ∷ m else (j, ps) ∷ insert_pci b pci m

-- The chain of tests at the start of Traverse. A failing `assert` is undefined.
unfoldable pub visit : Object → (b : ℕ) → List Numanode → Outcome (List Numanode)
unfolding change_back insert_pci emplace add
visit o b ns = elim (o.kind) [
  | cpu_package ↦ ok (ns ++ record { numanode = 0; cores = []; bridges = [] } ∷ [])
  | numa_node ↦ change_back (λ n. record n { numanode = o.address }) ns
  | core ↦ change_back (λ n. record n { cores = add (o.address) (n.cores) }) ns
  | pci_device ↦
      if b == 0
      then undefined
      else change_back (λ n. record n { bridges = insert_pci b (o.address) (n.bridges) }) ns
  | processing_unit ↦ ok ns
  | other ↦ ok ns
  | bridge true ↦ ok ns
  | bridge false ↦ change_back (λ n. record n { bridges = emplace (o.address) [] (n.bridges) }) ns
]

-- `bridge` after these tests.
unfoldable pub bridge_below : Object → ℕ → ℕ
bridge_below o b = elim (o.kind) [
  | cpu_package ↦ b
  | numa_node ↦ b
  | core ↦ b
  | pci_device ↦ b
  | processing_unit ↦ b
  | other ↦ b
  | bridge true ↦ b
  | bridge false ↦ o.address
]

-- Traverse, and its four loops, of which two leave out the processing units.
unfoldable mutual
  unfolding visit bridge_below

  pub traverse : Tree → (b : ℕ) → List Numanode → Outcome (List Numanode)
  traverse (node o memory normal io misc) b ns = do
    ns ← visit o b ns
    ns ← traverse_children false memory (bridge_below o b) ns
    ns ← traverse_children false normal (bridge_below o b) ns
    ns ← traverse_children true io (bridge_below o b) ns
    traverse_children true misc (bridge_below o b) ns

  pub traverse_children : (all : Bool) → Trees → (b : ℕ) → List Numanode → Outcome (List Numanode)
  traverse_children all no_child b ns = ok ns
  traverse_children all (child t ts) b ns =
      if all || not (is_pu ((root t).kind))
      then (traverse t b ns >>= λ ns'. traverse_children all ts b ns')
      else traverse_children all ts b ns
