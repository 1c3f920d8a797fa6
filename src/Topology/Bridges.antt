-- ===== src/Topology/Bridges.antt =====
-- Which PCI devices Traverse finds, and under which host bridges.
use aws_efa_examples.Common.{
  ℕ, ◌≡◌, refl, sym, ◌∙◌, Bool, true, false, ◌&&◌, ◌||◌, inl, inr, List, [], ◌∷◌, ◌++◌, ◌==◌,
  Bool-cases, ok, >>=-eq-ok, emplace, contains, arith, undefined-ne-ok, ok-injective,
}
use aws_efa_examples.Common.{contains-add}
use aws_efa_examples.Topology.{
  Kind, cpu_package, numa_node, core, pci_device, processing_unit, other, bridge, Object, Tree,
  Numanode, is_pci, change_back, insert_pci, visit, traverse,
}
use aws_efa_examples.Topology.Visits.{nearest, visits, visit_all, traverse-visits}

-- Whether device `p` stands under bridge `b`.
unfoldable pub stands_under : (b p : ℕ) → List (ℕ × List ℕ) → Bool
unfolding contains
stands_under b p [] = false
stands_under b p ((j, ps) ∷ m) = ((j == b) && contains p ps) || stands_under b p m

unfoldable pub found : (b p : ℕ) → List Numanode → Bool
unfolding stands_under
found b p [] = false
found b p (n ∷ ns) = stands_under b p n.bridges || found b p ns

-- Whether the visit of an object below `c` is that of PCI device `p` with bridge `b` as the nearest host
-- bridge above.
abbrev pub is_visit : (c b p : ℕ) → Object × List Object → Bool
is_visit c b p (o, above) = is_pci o.kind && ((o.address == p) && (nearest c above == b))

unfoldable pub visited : (c b p : ℕ) → List (Object × List Object) → Bool
unfolding nearest
visited c b p [] = false
visited c b p (v ∷ vs) = is_visit c b p v || visited c b p vs

-- What a visit adds.
abbrev adds : (b p : ℕ) → Object → (c : ℕ) → Bool
adds b p o c = is_pci o.kind && ((o.address == p) && (c == b))

stands_under-insert_pci :
    (b p c q : ℕ) (m : List (ℕ × List ℕ))
    → stands_under b p (insert_pci c q m) ≡ (((q == p) && (c == b)) || stands_under b p m)
unfolding stands_under insert_pci contains
stands_under-insert_pci b p c q [] = ground arith
stands_under-insert_pci b p c q ((j, ps) ∷ m) =
    ground (arith, contains-add q p ps, stands_under-insert_pci b p c q m)

stands_under-emplace :
    (b p c : ℕ) (m : List (ℕ × List ℕ)) → stands_under b p (emplace c [] m) ≡ stands_under b p m
unfolding stands_under emplace contains
stands_under-emplace b p c [] = ground arith
stands_under-emplace b p c ((j, ps) ∷ m) = ground (arith, stands_under-emplace b p c m)

found-append :
    (b p : ℕ) (ns ms : List Numanode) → found b p (ns ++ ms) ≡ (found b p ns || found b p ms)
unfolding found
found-append b p [] ms = refl
found-append b p (n ∷ ns) ms = ground (arith, found-append b p ns ms)

found-change_back :
    (b p : ℕ) (new : Bool) (f : Numanode → Numanode) (ns ns' : List Numanode)
    → ((n : Numanode) → stands_under b p (f n).bridges ≡ (new || stands_under b p n.bridges))
    → change_back f ns ≡ ok ns'
    → found b p ns' ≡ (new || found b p ns)
unfolding found change_back
found-change_back b p new f [] ns' h e = absurd (undefined-ne-ok e)
found-change_back b p new f (n ∷ []) ns' h e = ground (arith, h n, ok-injective e)
found-change_back b p new f (n ∷ m ∷ ns) ns' h e =
    let (rest, r, q) = >>=-eq-ok (change_back f (m ∷ ns)) (λ ms. ok (n ∷ ms)) e in
    ground (arith, found-change_back b p new f (m ∷ ns) rest h r, ok-injective q)

found-visit :
    (b p : ℕ) (o : Object) (c : ℕ) (ns ns' : List Numanode)
    → visit o c ns ≡ ok ns'
    → found b p ns' ≡ (adds b p o c || found b p ns)
unfolding visit found
found-visit b p o c ns ns' e = go (o.kind) refl
  where
    go : (k : Kind) → o.kind ≡ k → found b p ns' ≡ (adds b p o c || found b p ns)
    go cpu_package k = ground (
      arith,
      ok-injective (rw (k, visit) at e),
      found-append b p ns (record { numanode = 0; cores = []; bridges = [] } ∷ []),
    )
    go numa_node k = rw k (found-change_back b p false _ ns ns' (λ n. refl) (rw (k, visit) at e))
    go core k = rw k (found-change_back b p false _ ns ns' (λ n. refl) (rw (k, visit) at e))
    go pci_device k =
        let at_device = rw (k, visit) at e in
        elim (Bool-cases (c == 0)) [
          | inl z ↦ absurd (undefined-ne-ok (rw z at at_device))
          | inr z ↦ rw k (
              found-change_back b p ((o.address == p) && (c == b)) _ ns ns'
                (λ n. stands_under-insert_pci b p c o.address n.bridges) (rw z at at_device))
        ]
    go processing_unit k = ground (arith, ok-injective (rw (k, visit) at e))
    go other k = ground (arith, ok-injective (rw (k, visit) at e))
    go (bridge true) k = ground (arith, ok-injective (rw (k, visit) at e))
    go (bridge false) k = rw k (
        found-change_back b p false _ ns ns' (λ n. stands_under-emplace b p o.address n.bridges)
          (rw (k, visit) at e))

found-visit_all :
    (c b p : ℕ) (vs : List (Object × List Object)) (ns ns' : List Numanode)
    → visit_all c vs ns ≡ ok ns'
    → found b p ns' ≡ (visited c b p vs || found b p ns)
unfolding visited
found-visit_all c b p [] ns ns' e = ground (arith, ok-injective e)
found-visit_all c b p ((o, above) ∷ vs) ns ns' e =
    let (mid, first, rest) = >>=-eq-ok (visit o (nearest c above) ns) (λ m. visit_all c vs m) e in
    ground (
      arith,
      found-visit b p o (nearest c above) ns mid first,
      found-visit_all c b p vs mid ns' rest,
    )

-- Where Traverse returns, a device stands under a bridge exactly if it did before or the walk visits
-- it as a PCI device whose nearest host bridge above, a bridge whose upstream side is not PCI, is that
-- bridge; a device with no host bridge above it stands under the one that Traverse was given.
pub found-traverse :
    (t : Tree) (b p c : ℕ) (ns ns' : List Numanode)
    → traverse t c ns ≡ ok ns'
    → found b p ns' ≡ (visited c b p (visits t []) || found b p ns)
found-traverse t b p c ns ns' e =
    found-visit_all c b p (visits t []) ns ns' (sym (traverse-visits c t ns) ∙ e)
