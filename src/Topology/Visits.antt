-- ===== src/Topology/Visits.antt =====
-- Traverse against the list of the objects that it visits, each with the objects above it.
use aws_efa_examples.Common.{
  ℕ, ◌≡◌, refl, sym, ap, ◌∙◌, Bool, true, false, not, ◌||◌, inl, inr, List, [], ◌∷◌, ◌++◌,
  if◌then◌else◌, Bool-cases, Outcome, ok, ◌>>=◌,
}
use aws_efa_examples.Common.{>>=-assoc, >>=-congr}
use aws_efa_examples.Topology.{
  Kind, cpu_package, numa_node, core, pci_device, processing_unit, other, bridge, Object, Tree,
  node, Trees, no_child, child, root, Numanode, is_pu, visit, bridge_below, traverse,
  traverse_children,
}

-- The kinds of host bridges: bridges whose upstream side is not PCI.
abbrev pub is_host_bridge : Kind → Bool
is_host_bridge (bridge upstream_pci) = not upstream_pci
is_host_bridge _ = false

-- The first host bridge among the objects above one, nearest first; without one it is `b`.
unfoldable pub nearest : (b : ℕ) → List Object → ℕ
nearest b [] = b
nearest b (o ∷ above) = if is_host_bridge o.kind then o.address else nearest b above

-- The objects in the order of the walk, each with all the objects above it, nearest first; the processing
-- units among the memory and normal children are left out.
unfoldable mutual
  pub visits : Tree → List Object → List (Object × List Object)
  visits (node o memory normal io misc) above =
      (o, above)
      ∷ (visits_below false memory (o ∷ above)
          ++ (visits_below false normal (o ∷ above)
              ++ (visits_below true io (o ∷ above) ++ visits_below true misc (o ∷ above))))

  pub visits_below : (all : Bool) → Trees → List Object → List (Object × List Object)
  visits_below all no_child above = []
  visits_below all (child t ts) above =
      if all || not (is_pu ((root t).kind))
      then visits t above ++ visits_below all ts above
      else visits_below all ts above

bridge_below-nearest :
    (b : ℕ) (o : Object) (above : List Object)
    → bridge_below o (nearest b above) ≡ nearest b (o ∷ above)
unfolding bridge_below nearest
bridge_below-nearest b o above = go (o.kind) refl
  where
    go : (k : Kind) → o.kind ≡ k → bridge_below o (nearest b above) ≡ nearest b (o ∷ above)
    go cpu_package k = rw (k, bridge_below, nearest) refl
    go numa_node k = rw (k, bridge_below, nearest) refl
    go core k = rw (k, bridge_below, nearest) refl
    go pci_device k = rw (k, bridge_below, nearest) refl
    go processing_unit k = rw (k, bridge_below, nearest) refl
    go other k = rw (k, bridge_below, nearest) refl
    go (bridge true) k = rw (k, bridge_below, nearest) refl
    go (bridge false) k = rw (k, bridge_below, nearest) refl

-- A loop over visits below `b`, each with its nearest host bridge.
abbrev pub visit_all :
    (b : ℕ) → List (Object × List Object) → List Numanode → Outcome (List Numanode)
visit_all b [] ns = ok ns
visit_all b ((o, above) ∷ vs) ns = visit o (nearest b above) ns >>= λ ns'. visit_all b vs ns'

visit_all-append :
    (b : ℕ) (us vs : List (Object × List Object)) (ns : List Numanode)
    → visit_all b (us ++ vs) ns ≡ (visit_all b us ns >>= λ ns'. visit_all b vs ns')
visit_all-append b [] vs ns = refl
visit_all-append b ((o, above) ∷ us) vs ns =
    >>=-congr (visit o (nearest b above) ns) (λ ns'. visit_all-append b us vs ns')
    ∙ sym (
        >>=-assoc (visit o (nearest b above) ns) (λ ns'. visit_all b us ns')
          (λ ns'. visit_all b vs ns'))

module _ (b : ℕ) where
  joined :
      {m : Outcome (List Numanode)} {k : List Numanode → Outcome (List Numanode)}
      (us vs : List (Object × List Object)) (ns : List Numanode)
      → m ≡ visit_all b us ns
      → ((ns' : List Numanode) → k ns' ≡ visit_all b vs ns')
      → (m >>= k) ≡ visit_all b (us ++ vs) ns
  joined {m} {k} us vs ns e h =
      ap (λ (x : Outcome (List Numanode)). x >>= k) e
      ∙ >>=-congr (visit_all b us ns) h
      ∙ sym (visit_all-append b us vs ns)

moved :
    (b : ℕ) (all : Bool) (ts : Trees) (o : Object) (above : List Object) (ns : List Numanode)
    → traverse_children all ts (bridge_below o (nearest b above)) ns
      ≡ traverse_children all ts (nearest b (o ∷ above)) ns
moved b all ts o above ns = ap (λ c. traverse_children all ts c ns) (bridge_below-nearest b o above)

mutual
  unfolding traverse visits

  tree-visits :
      (b : ℕ) (t : Tree) (above : List Object) (ns : List Numanode)
      → traverse t (nearest b above) ns ≡ visit_all b (visits t above) ns
  tree-visits b (node o memory normal io misc) above ns =
      >>=-congr (visit o (nearest b above) ns) (λ n1.
        joined b (visits_below false memory (o ∷ above))
          (visits_below false normal (o ∷ above)
            ++ (visits_below true io (o ∷ above) ++ visits_below true misc (o ∷ above)))
          n1 (moved b false memory o above n1 ∙ trees-visits b false memory (o ∷ above) n1)
          (λ n2.
            joined b (visits_below false normal (o ∷ above))
              (visits_below true io (o ∷ above) ++ visits_below true misc (o ∷ above)) n2
              (moved b false normal o above n2 ∙ trees-visits b false normal (o ∷ above) n2)
              (λ n3.
                joined b (visits_below true io (o ∷ above)) (visits_below true misc (o ∷ above)) n3
                  (moved b true io o above n3 ∙ trees-visits b true io (o ∷ above) n3)
                  (λ n4. moved b true misc o above n4 ∙ trees-visits b true misc (o ∷ above) n4))))

  trees-visits :
      (b : ℕ) (all : Bool) (ts : Trees) (above : List Object) (ns : List Numanode)
      → traverse_children all ts (nearest b above) ns ≡ visit_all b (visits_below all ts above) ns
  trees-visits b all no_child above ns = refl
  trees-visits b all (child t ts) above ns =
      elim (Bool-cases (all || not (is_pu ((root t).kind)))) [
        | inl e ↦
            rw (e, traverse_children, visits_below)
              (joined b (visits t above) (visits_below all ts above) ns (tree-visits b t above ns)
                (λ ns'. trees-visits b all ts above ns'))
        | inr e ↦ rw (e, traverse_children, visits_below) (trees-visits b all ts above ns)
      ]

-- Traverse handles the objects of `visits` one after the other: the recursion and its four loops
-- keep nothing but the nodes.
pub traverse-visits :
    (b : ℕ) (t : Tree) (ns : List Numanode) → traverse t b ns ≡ visit_all b (visits t []) ns
unfolding nearest
traverse-visits b t ns = tree-visits b t [] ns
